-- ===== src/Config/Tests.antt =====
-- The validation at a small configuration, and a run of it on a wrong one.
use babilcors.Prelude.{◌<◌, ◌≡◌, refl, true, [], ◌∷◌}
use babilcors.Prelude.Int.{pos}
use babilcors.Tiers.{Tier}
use babilcors.Caster.Server.{new_session}
use babilcors.Config.{
  Config, validate_config, listen_errors, error_if, in_port_range, is_blank, is_space, below_one,
  is_empty, repeats, has, same_text, mountpoint_errors, has_space, has_slash, tier_errors,
  is_negative, user_errors, limit_errors, unknown_tier_errors, unknown_tiers,
}
use babilcors.Config.Valid.{IsTier, IsValid, validate_config-IsValid, tier-bounded}

abbrev free : Tier
free = record { rate_limit_bps = pos 0; max_epochs_per_minute = pos 0; max_queue_bytes = pos 0 }

-- Host `h`, source password `p`, mountpoint `M`, tier `f` and user `u` with password `w`.
abbrev config : Config
config = record {
  listen = record {
    host = 104 ∷ [];
    port = pos 2101;
    backlog = pos 100;
    tls_certfile = [];
    tls_keyfile = [];
  };
  source_password = 112 ∷ [];
  source_mountpoints = (77 ∷ []) ∷ [];
  tiers = (102 ∷ [], free) ∷ [];
  users =
      record {
        username = 117 ∷ [];
        password = 119 ∷ [];
        password_sha256 = [];
        password_hash = [];
        tier = 102 ∷ [];
      }
      ∷ [];
  limits = [];
  ip_nets_ok = true;
}

config-errors : validate_config config ≡ []
unfolding validate_config listen_errors error_if in_port_range is_blank is_space below_one is_empty
    repeats has same_text mountpoint_errors has_space has_slash tier_errors is_negative user_errors
    limit_errors unknown_tier_errors unknown_tiers
config-errors = refl

validate_config-IsValid_case : IsValid config
validate_config-IsValid_case = validate_config-IsValid config config-errors

free-IsTier : IsTier free
free-IsTier = record { rate = (0, refl); epochs = (0, refl); bytes = (0, refl) }

tier-bounded_case : 0 < (new_session 1 free 5).queue.max
tier-bounded_case = tier-bounded free 1 5 free-IsTier
