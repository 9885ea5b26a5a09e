-- ===== src/Caster/Load.antt =====
-- `load_config` of src/caster.py with `load_users` of src/auth.py and `build_tier` of
-- src/tiers.py: from the JSON value of the file to a configuration, `none` for an exception.
pub mod Adding
pub mod Posting
pub mod Serving
mod Tests
use babilcors.Prelude.{
  ℕ, Bool, true, false, Option, none, some, List, [], ◌∷◌, drop, if◌then◌else◌, or_else, ◌>>=◌,
}
use babilcors.Prelude.Int.{ℤ, pos}
use babilcors.Net.{starts_with}
use babilcors.Tiers.{Tier}
use babilcors.Config.{Listen, User, Config, is_empty, validate_config}
use babilcors.Json.{
  Text, codes, Value, bool, int, float, text, array, object, Items, nil, cons, Fields, end, field,
  get, get_or_null, truthy, as_object, or_empty,
}
use babilcors.Caster.Routes.{Host, str}
use babilcors.Caster.Routes.Resources.{int_field}

-- `os.getenv(key, "")`, and whether the CIDR lists of `security` are ones that `ipaddress` reads.
pub record Site : Type 0 where
  pub getenv : Text → Text
  pub nets_ok : Value → Bool

-- `UserRecord`; `user` holds what `validate_config` looks at.
pub record Account : Type 0 where
  pub user : User
  pub mountpoints : List Text
  pub geofence_id : Option Text
  pub role : Text

pub record Logging : Type 0 where
  pub level : Text
  pub fmt : Text

pub record Sourcetable : Type 0 where
  pub operator : Text
  pub country : Text
  pub network : Text
  pub mountpoints_meta : Option Fields

-- `CasterCfg`.
pub record Loaded : Type 0 where
  pub config : Config
  pub reuse_port : Bool
  pub tls_client_ca : Text
  pub logging : Logging
  pub sourcetable : Sourcetable
  pub accounts : List Account
  pub security : Value

-- The sections of the file that are taken apart.
pub record Sections : Type 0 where
  pub listen : Fields
  pub logging : Fields
  pub sourcetable : Fields
  pub sources : Fields
  pub tiers : Fields
  pub users : Fields
  pub limits : Fields

unfoldable pub section : Text → Fields → Option Fields
section k raw = as_object (or_empty k raw)

unfoldable pub collect :
    Option Fields
    → Option Fields
    → Option Fields
    → Option Fields
    → Option Fields
    → Option Fields
    → Option Fields
    → Option Sections
collect li lo st so ti us lm = li >>= λ listen. lo >>= λ logging. st >>= λ sourcetable.
    so >>= λ sources. ti >>= λ tiers. us >>= λ users. lm >>= λ limits. some (record {
      listen = listen;
      logging = logging;
      sourcetable = sourcetable;
      sources = sources;
      tiers = tiers;
      users = users;
      limits = limits;
    })

unfoldable pub sections : Fields → Option Sections
sections raw =
    collect (section (codes "listen") raw) (section (codes "logging") raw)
      (section (codes "sourcetable") raw) (section (codes "sources") raw)
      (section (codes "tiers") raw) (section (codes "users") raw) (section (codes "limits") raw)

-- `isinstance(v, (int, float))`, of which `bool` is a case.
unfoldable pub is_number : Value → Bool
is_number (bool b) = true
is_number (int n) = true
is_number (float s) = true
is_number _ = false

-- The part of each account that is checked.
unfoldable pub users_of : List Account → List User
users_of [] = []
users_of (a ∷ rest) = a.user ∷ users_of rest

module _ (H : Host) where
  -- `str(d.get(k, default))`, and `int(d.get(k, default))`.
  unfoldable pub text_field : Fields → Text → Text → Text
  text_field d k default = str H (or_else (get k d) (text default))

  unfoldable pub number_field : Fields → Text → ℕ → Option ℤ
  number_field d k default = H.to_int (or_else (get k d) (int (pos default)))

  unfoldable pub texts : Items → List Text
  texts nil = []
  texts (cons v vs) = str H v ∷ texts vs

  -- A list of texts, or a default for any other value.
  unfoldable pub texts_or : List Text → Value → List Text
  texts_or default (array vs) = texts vs
  texts_or default _ = default

  unfoldable pub load_listen : Fields → Option Listen
  load_listen d = number_field d (codes "port") 2101 >>= λ port.
      number_field d (codes "backlog") 200 >>= λ backlog. some (record {
        host = text_field d (codes "host") (codes "0.0.0.0");
        port = port;
        backlog = backlog;
        tls_certfile = text_field d (codes "tls_certfile") [];
        tls_keyfile = text_field d (codes "tls_keyfile") [];
      })

  unfoldable pub build_tier : Fields → Option Tier
  build_tier d = int_field H d (codes "rate_limit_bps") >>= λ rl.
      int_field H d (codes "max_epochs_per_minute") >>= λ ep.
      int_field H d (codes "max_queue_bytes") >>= λ mq.
      some (record { rate_limit_bps = rl; max_epochs_per_minute = ep; max_queue_bytes = mq })

  -- The entries that are dictionaries; their names are different, since they are keys.
  unfoldable pub load_tiers : Fields → Option (List (Text × Tier))
  load_tiers end = some []
  load_tiers (field name v rest) = elim (as_object v) [
    | none ↦ load_tiers rest
    | some d ↦ (build_tier d >>= λ t. load_tiers rest >>= λ ts. some ((name, t) ∷ ts))
  ]

  unfoldable pub load_limits : Fields → Option (List (Text × ℤ))
  load_limits end = some []
  load_limits (field k v rest) =
      if is_number v
      then (H.to_int v >>= λ n. load_limits rest >>= λ ls. some ((k, n) ∷ ls))
      else load_limits rest

  unfoldable pub load_sourcetable : Fields → Sourcetable
  load_sourcetable d = record {
    operator = text_field d (codes "operator") (codes "NTRIP");
    country = text_field d (codes "country") (codes "XX");
    network = text_field d (codes "network") [];
    mountpoints_meta = as_object (get_or_null (codes "mountpoints_meta") d);
  }

  module _ (site : Site) where
    unfoldable pub resolve_secret : Text → Text
    resolve_secret value =
        if starts_with (codes "env:") value then site.getenv (drop 4 value) else value

    unfoldable pub load_user : Text → Fields → Account
    load_user username d = record {
      user = record {
        username = username;
        password = resolve_secret (text_field d (codes "password") []);
        password_sha256 = resolve_secret (text_field d (codes "password_sha256") []);
        password_hash = resolve_secret (text_field d (codes "password_hash") []);
        tier = text_field d (codes "tier") (codes "free");
      };
      mountpoints =
          texts_or (codes "*" ∷ [])
            (or_else (get (codes "mountpoints") d) (array (cons (text (codes "*")) nil)));
      geofence_id =
          if truthy (get_or_null (codes "geofence_id") d)
          then some (str H (get_or_null (codes "geofence_id") d))
          else none;
      role = text_field d (codes "role") (codes "user");
    }

    unfoldable pub load_users : Fields → List Account
    load_users end = []
    load_users (field username v rest) = elim (as_object v) [
      | none ↦ load_users rest
      | some d ↦ load_user username d ∷ load_users rest
    ]

    unfoldable pub checked :
        Value
        → Sections
        → Option Listen
        → Option (List (Text × Tier))
        → Option (List (Text × ℤ))
        → Option Config
    checked security s li ti lm = li >>= λ listen. ti >>= λ tiers. lm >>= λ limits. some (record {
      listen = listen;
      source_password = resolve_secret (text_field s.sources (codes "password") []);
      source_mountpoints = texts_or [] (or_else (get (codes "mountpoints") s.sources) (array nil));
      tiers = tiers;
      users = users_of (load_users s.users);
      limits = limits;
      ip_nets_ok = site.nets_ok security;
    })

    -- What is checked, of a file with these sections and this `security`.
    unfoldable pub load_checked : Value → Sections → Option Config
    load_checked security s =
        checked security s (load_listen s.listen) (load_tiers s.tiers) (load_limits s.limits)

    unfoldable pub assemble : Value → Sections → Option Config → Option Loaded
    assemble security s none = none
    assemble security s (some config) = some (record {
      config = config;
      reuse_port = truthy (get_or_null (codes "reuse_port") s.listen);
      tls_client_ca = text_field s.listen (codes "tls_client_ca") [];
      logging = record {
        level = text_field s.logging (codes "level") (codes "INFO");
        fmt = text_field s.logging (codes "format") (codes "plain");
      };
      sourcetable = load_sourcetable s.sourcetable;
      accounts = load_users s.users;
      security = security;
    })

    unfoldable pub load_sections : Value → Option Sections → Option Loaded
    load_sections security none = none
    load_sections security (some s) = assemble security s (load_checked security s)

    unfoldable pub load_fields : Fields → Option Loaded
    load_fields raw = load_sections (or_empty (codes "security") raw) (sections raw)

    unfoldable pub load_config : Value → Option Loaded
    load_config v = as_object v >>= load_fields

    -- What `_admin_update_config` asks of a new file before it takes the place of the old one.
    unfoldable pub is_accepted : Option Loaded → Bool
    is_accepted none = false
    is_accepted (some l) = is_empty (validate_config l.config)

    unfoldable pub loads : Value → Bool
    loads v = is_accepted (load_config v)
