-- ===== src/Caster/Load/Tests.antt =====
-- The theorems on the configuration file at a concrete file, with a password for the sources and
-- defaults for all else.
use babilcors.Prelude.{ℕ, ◌≡◌, refl, true, false, Option, none, some, [], ◌∷◌}
use babilcors.Prelude.Int.{ℤ, pos}
use babilcors.Geodesy.Whole.{whole_floats}
use babilcors.Net.{starts_with}
use babilcors.Tiers.{Tier}
use babilcors.Config.{
  is_empty, validate_config, listen_errors, in_port_range, is_blank, below_one, error_if, repeats,
  mountpoint_errors, tier_errors, user_errors, limit_errors, unknown_tier_errors, unknown_tiers,
  is_negative, is_space,
}
use babilcors.Json.{
  codes, Value, int, text, object, Fields, end, field, get, get_or_null, put, has_key, truthy,
  as_object, or_default, or_empty, same_text,
}
use babilcors.Caster.Routes.{Host, str, State, status, post, update_config, write, answer_by}
use babilcors.Caster.Routes.Resources.{int_field, new_tier_entry, create_in, create_tier, post_tier}
use babilcors.Caster.Routes.Dispatch.{Request}
use babilcors.Caster.Routes.Answers.{run, IsSound}
use babilcors.Caster.Load.{
  Site, Loaded, section, collect, sections, text_field, number_field, texts, texts_or, load_listen,
  build_tier, load_tiers, load_limits, load_sourcetable, resolve_secret, load_users, users_of,
  checked, load_checked, assemble, load_sections, load_fields, load_config, is_accepted, loads,
}
use babilcors.Caster.Load.Serving.{IsServed, run-IsServed}
use babilcors.Caster.Load.Posting.{with_tier, post_tier-adds}

abbrev number : Value → Option ℕ
number (int (pos n)) = some n
number _ = none

abbrev whole_number : Value → Option ℤ
whole_number (int n) = some n
whole_number _ = none

abbrev host : Host
host = record {
  floats = whole_floats;
  to_float = number;
  of_float = λ x. int (pos x);
  to_int = whole_number;
  repr = λ v. [];
  conforms = λ schema body. true;
}

abbrev site : Site
site = record { getenv = λ k. []; nets_ok = λ v. true }

abbrev state : State
state = record {
  has_path = true;
  raw = field (codes "sources") (object (field (codes "password") (text (codes "s")) end)) end;
  security = object end;
}

state-IsSound : IsSound host (loads host site) state
unfolding loads is_accepted load_config load_fields load_sections sections collect section as_object
    or_empty get_or_null get same_text truthy load_checked checked load_listen load_tiers
    load_limits load_users users_of texts_or texts text_field number_field resolve_secret
    starts_with str assemble validate_config is_empty listen_errors in_port_range is_blank is_space
    below_one error_if repeats mountpoint_errors tier_errors user_errors limit_errors
    unknown_tier_errors unknown_tiers
state-IsSound = record { valid = refl; in_use = refl }

abbrev request : Request
request = record {
  method = post;
  path = codes "/admin/disable";
  has_query = false;
  body = field (codes "mountpoint") (text (codes "A")) end;
  role = "admin";
  sub = codes "root";
}

run-IsServed_example : IsServed host site (run host (loads host site) (request ∷ []) state)
run-IsServed_example = run-IsServed host site (request ∷ []) state state-IsSound

abbrev gold : Fields
gold =
    field (codes "name") (text (codes "gold")) (field (codes "rate_limit_bps") (int (pos 100)) end)

abbrev tier : Tier
tier = record { rate_limit_bps = pos 100; max_epochs_per_minute = pos 0; max_queue_bytes = pos 0 }

abbrev loaded : Loaded
loaded = record {
  config = record {
    listen = record {
      host = codes "0.0.0.0";
      port = pos 2101;
      backlog = pos 200;
      tls_certfile = [];
      tls_keyfile = [];
    };
    source_password = codes "s";
    source_mountpoints = [];
    tiers = [];
    users = [];
    limits = [];
    ip_nets_ok = true;
  };
  reuse_port = false;
  tls_client_ca = [];
  logging = record { level = codes "INFO"; fmt = codes "plain" };
  sourcetable = record {
    operator = codes "NTRIP";
    country = codes "XX";
    network = [];
    mountpoints_meta = none;
  };
  accounts = [];
  security = object end;
}

state-loads : load_config host site (object state.raw) ≡ some loaded
unfolding load_config load_fields load_sections sections collect section as_object or_empty
    get_or_null get same_text truthy load_checked checked load_listen load_tiers load_limits
    load_users users_of texts_or texts text_field number_field resolve_secret starts_with str
    assemble load_sourcetable
state-loads = refl

gold-built : build_tier host gold ≡ some tier
unfolding build_tier int_field get_or_null get same_text truthy
gold-built = refl

gold-created : (post_tier host (loads host site) gold state).1 ≡ status 201
unfolding post_tier update_config write answer_by create_tier create_in new_tier_entry int_field
    or_default has_key put build_tier loads is_accepted load_config load_fields load_sections
    sections collect section as_object or_empty get_or_null get same_text truthy load_checked
    checked load_listen load_tiers load_limits load_users users_of texts_or texts text_field
    number_field resolve_secret starts_with str assemble validate_config is_empty listen_errors
    in_port_range is_blank is_space below_one error_if repeats mountpoint_errors tier_errors
    is_negative user_errors limit_errors unknown_tier_errors unknown_tiers
gold-created = refl

post_tier-adds_example :
    load_config host site (object (post_tier host (loads host site) gold state).0.raw)
    ≡ some (with_tier (codes "gold", tier) loaded)
unfolding str get_or_null get same_text
post_tier-adds_example =
    post_tier-adds host site (λ n. refl) gold state loaded tier state-loads gold-built gold-created
