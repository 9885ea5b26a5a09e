-- ===== src/Config.antt =====
-- `validate_config` of src/caster.py, on a configuration that `load_config` has read. An error is
-- a constructor in place of its message. The test of the CIDR lists of `security`, which the
-- library `ipaddress` reads, is a field.
pub mod Valid
mod Tests
use babilcors.Prelude.{
  ℕ, ◌+◌, ◌<◌, ◌≡◌, Bool, true, false, not, ◌&&◌, ◌||◌, Option, none, some, List, [], ◌∷◌, ◌++◌,
  ◌==◌, leb, ltb, if◌then◌else◌,
}
use babilcors.Prelude.Int.{ℤ, pos, negsuc}
use babilcors.Tiers.{Tier}

-- Text is a list of code points; `None` and the empty text are not told apart where the source
-- does not.
abbrev pub Text : Type 0
Text = List ℕ

pub record Listen : Type 0 where
  pub host : Text
  pub port : ℤ
  pub backlog : ℤ
  pub tls_certfile : Text
  pub tls_keyfile : Text

pub record User : Type 0 where
  pub username : Text
  pub password : Text
  pub password_sha256 : Text
  pub password_hash : Text
  pub tier : Text

pub record Config : Type 0 where
  pub listen : Listen
  pub source_password : Text
  pub source_mountpoints : List Text
  pub tiers : List (Text × Tier)
  pub users : List User
  pub limits : List (Text × ℤ)
  pub ip_nets_ok : Bool

pub data Field : Type 0 where
  rate_limit_bps max_epochs_per_minute max_queue_bytes : Field

pub data Error : Type 0 where
  port_range host_empty backlog_low tls_halves source_password_empty : Error
  mountpoint_repeated mountpoint_empty : Error
  mountpoint_space mountpoint_slash : Text → Error
  tier_negative : Text → Field → Error
  user_without_password : Text → Error
  limit_negative : Text → Error
  ip_nets : Error
  tier_unknown : List Text → Error

unfoldable pub is_empty {ℓ} : {A : Type ℓ} → List A → Bool
is_empty [] = true
is_empty (x ∷ xs) = false

unfoldable pub error_if : Bool → Error → List Error
error_if b e = if b then e ∷ [] else []

unfoldable pub same_text : Text → Text → Bool
same_text [] [] = true
same_text [] (d ∷ u) = false
same_text (c ∷ t) [] = false
same_text (c ∷ t) (d ∷ u) = (c == d) && same_text t u

unfoldable pub has : Text → List Text → Bool
has t [] = false
has t (u ∷ us) = same_text u t || has t us

unfoldable pub repeats : List Text → Bool
repeats [] = false
repeats (t ∷ ts) = has t ts || repeats ts

-- The white space of ASCII.
unfoldable pub is_space : ℕ → Bool
is_space c = (leb 9 c && leb c 13) || (leb 28 c && leb c 32)

unfoldable pub has_space : Text → Bool
has_space [] = false
has_space (c ∷ t) = is_space c || has_space t

unfoldable pub is_blank : Text → Bool
is_blank [] = true
is_blank (c ∷ t) = is_space c && is_blank t

unfoldable pub has_slash : Text → Bool
has_slash [] = false
has_slash (c ∷ t) = (c == 47) || has_slash t

unfoldable pub is_negative : ℤ → Bool
is_negative (pos n) = false
is_negative (negsuc n) = true

unfoldable pub in_port_range : ℤ → Bool
in_port_range (pos n) = leb n 65535
in_port_range (negsuc n) = false

unfoldable pub below_one : ℤ → Bool
below_one (pos n) = n == 0
below_one (negsuc n) = true

unfoldable pub listen_errors : Listen → List Error
listen_errors l =
    error_if (not (in_port_range l.port)) port_range
    ++ (error_if (is_blank l.host) host_empty
        ++ (error_if (below_one l.backlog) backlog_low
            ++ error_if
                ((not (is_empty l.tls_certfile) || not (is_empty l.tls_keyfile))
                  && not (not (is_empty l.tls_certfile) && not (is_empty l.tls_keyfile)))
                tls_halves))

-- The loop over the mountpoints stops at the first that is wrong.
unfoldable pub mountpoint_errors : List Text → List Error
mountpoint_errors [] = []
mountpoint_errors (mp ∷ mps) =
    let rest = mountpoint_errors mps in
    if is_blank mp
    then mountpoint_empty ∷ []
    else if has_space mp
    then mountpoint_space mp ∷ []
    else if has_slash mp
    then mountpoint_slash mp ∷ []
    else rest

unfoldable pub tier_errors : List (Text × Tier) → List Error
tier_errors [] = []
tier_errors ((name, t) ∷ ts) =
    error_if (is_negative t.rate_limit_bps) (tier_negative name rate_limit_bps)
    ++ (error_if (is_negative t.max_epochs_per_minute) (tier_negative name max_epochs_per_minute)
        ++ (error_if (is_negative t.max_queue_bytes) (tier_negative name max_queue_bytes)
            ++ tier_errors ts))

-- The loop over the users stops at the first that is wrong.
unfoldable pub user_errors : List User → List Error
user_errors [] = []
user_errors (u ∷ us) =
    let rest = user_errors us in
    if is_empty u.password && is_empty u.password_sha256 && is_empty u.password_hash
    then user_without_password u.username ∷ []
    else rest

unfoldable pub limit_errors : List (Text × ℤ) → List Error
limit_errors [] = []
limit_errors ((k, v) ∷ ls) = error_if (is_negative v) (limit_negative k) ++ limit_errors ls

abbrev pub names : List (Text × Tier) → List Text
names [] = []
names ((name, t) ∷ ts) = name ∷ names ts

-- The tiers of users that are not in the table.
unfoldable pub unknown_tiers : List Text → List User → List Text
unknown_tiers known [] = []
unknown_tiers known (u ∷ us) =
    let rest = unknown_tiers known us in
    if not (is_empty u.tier) && not (has u.tier known) then u.tier ∷ rest else rest

unfoldable pub unknown_tier_errors : Config → List Error
unknown_tier_errors c =
    let unknown = unknown_tiers (names c.tiers) c.users in
    error_if (not (is_empty c.tiers) && not (is_empty unknown)) (tier_unknown unknown)

-- All errors, in order; the configuration is valid if there are none.
unfoldable pub validate_config : Config → List Error
validate_config c =
    listen_errors c.listen
    ++ (error_if (is_empty c.source_password) source_password_empty
        ++ (error_if (repeats c.source_mountpoints) mountpoint_repeated
            ++ (mountpoint_errors c.source_mountpoints
                ++ (tier_errors c.tiers
                    ++ (user_errors c.users
                        ++ (limit_errors c.limits
                            ++ (error_if (not c.ip_nets_ok) ip_nets ++ unknown_tier_errors c)))))))

-- `config_changed`: the file's time of change, `none` if it cannot be read or there is no path,
-- and the one that is known; the known one afterwards, and the answer.
unfoldable pub config_changed : Option ℕ → Option ℕ → Option ℕ × Bool
config_changed none known = (known, false)
config_changed (some mt) none = (some mt, false)
config_changed (some mt) (some known) = (some known, ltb known mt)
