-- ===== src/Jwt.antt =====
-- src/jwt_auth.py without its Redis store, and the routes of src/caster.py that use it: the
-- gate of the admin API, the refresh of a token and its revocation. Times are in seconds. PyJWT
-- is third-party: `encode` and `decode_token` are parameters.
pub mod Revocation
pub mod Refresh
pub mod Gate
mod Tests
use babilcors.Prelude.{
  ℕ, ◌+◌, ◌≡◌, ◌<◌, Bool, true, false, not, ◌&&◌, ◌||◌, Option, none, some, String, List, [], ◌∷◌,
  ◌==◌, leb, if◌then◌else◌,
}
use babilcors.Prelude.Dict.{string_eq, Dict, lookup, insert, remove}

pub record Claims : Type 0 where
  pub sub : String
  pub role : String
  pub typ : String
  pub iat : ℕ
  pub exp : ℕ
  pub jti : String

-- `JwtManager` with the memory store.
pub record Manager : Type 0 where
  pub access_exp_s : ℕ
  pub refresh_exp_s : ℕ
  pub revoked : Dict String ℕ

-- The claims that `_make` signs; `jti` is `uuid4`.
unfoldable pub make : String → String → String → ℕ → ℕ → String → Claims
make sub role typ exp_s now jti = record {
  sub = sub;
  role = role;
  typ = typ;
  iat = now;
  exp = now + exp_s;
  jti = jti;
}

unfoldable pub mint_access : String → String → ℕ → String → Manager → Claims
mint_access sub role now jti m = make sub role "access" m.access_exp_s now jti

unfoldable pub mint_refresh : String → String → ℕ → String → Manager → Claims
mint_refresh sub role now jti m = make sub role "refresh" m.refresh_exp_s now jti

unfoldable pub revoke_jti : String → ℕ → ℕ → Manager → Manager
revoke_jti jti exp now m =
    if leb exp now then m else record m { revoked = insert jti exp m.revoked }

-- An entry that has expired is deleted.
unfoldable pub still_revoked : String → Option ℕ → ℕ → Manager → Manager × Bool
still_revoked jti none now m = (m, false)
still_revoked jti (some exp) now m =
    if leb exp now then (record m { revoked = remove jti m.revoked }, false) else (m, true)

unfoldable pub is_revoked : String → ℕ → Manager → Manager × Bool
is_revoked jti now m = still_revoked jti (lookup jti m.revoked) now m

unfoldable pub if_live : Claims → Manager × Bool → Manager × Option Claims
if_live c (m, true) = (m, none)
if_live c (m, false) = (m, some c)

unfoldable pub check_claims : String → Option Claims → ℕ → Manager → Manager × Option Claims
check_claims expected_type none now m = (m, none)
check_claims expected_type (some c) now m =
    if not (string_eq.beq c.typ expected_type)
    then (m, none)
    else if string_eq.beq c.jti ""
    then (m, some c)
    else if_live c (is_revoked c.jti now m)

-- Roles in lower case.
unfoldable pub role_allows : String → Bool → Bool
role_allows role write =
    if string_eq.beq role "admin" || string_eq.beq role "superadmin"
    then true
    else if string_eq.beq role "admin_ro"
        || string_eq.beq role "admin_readonly"
        || string_eq.beq role "readonly_admin"
    then not write
    else false

-- `jwt.decode` with the secret, at a time: the claims of a token that is signed and not expired.
module _ (decode_token : ℕ → String → Option Claims) where
  unfoldable pub decode : String → String → ℕ → Manager → Manager × Option Claims
  decode token expected_type now m = check_claims expected_type (decode_token now token) now m

  -- `POST /admin/token/refresh`: the old token is revoked, and two new ones are made; `jti` and
  -- `jti'` are their names.
  unfoldable pub rotate :
      String → String → ℕ → Manager × Option Claims → Manager × Option (Claims × Claims)
  rotate jti jti' now (m, none) = (m, none)
  rotate jti jti' now (m, some c) =
      let m' = revoke_jti c.jti c.exp now m in
      (m', some (mint_access c.sub c.role now jti m', mint_refresh c.sub c.role now jti' m'))

  unfoldable pub refresh :
      String → String → String → ℕ → Manager → Manager × Option (Claims × Claims)
  refresh token jti jti' now m = rotate jti jti' now (decode token "refresh" now m)

  -- The claims that a caller of the admin API acts under, if it may.
  unfoldable pub static_claims : String → String → Option String → Option String
  static_claims admin_token bearer (some role) = some role
  static_claims admin_token bearer none =
      if string_eq.beq admin_token "" || not (string_eq.beq bearer admin_token)
      then none
      else some "admin"

  unfoldable pub role_of : Manager × Option Claims → Option String
  role_of (m, none) = none
  role_of (m, some c) = some c.role

  -- The gate before all routes but the two that need no token: the role, or `none` for 403.
  unfoldable pub authorise : String → String → String → ℕ → Manager → Option String
  authorise secret admin_token bearer now m = static_claims admin_token bearer (
      if string_eq.beq secret "" || string_eq.beq bearer ""
      then none
      else role_of (decode bearer "access" now m))

  -- `POST /admin/token/revoke` by a caller under a role: a token that can be decoded gives its own
  -- name and expiry in place of those of the body; `none` is an answer with an error.
  unfoldable pub revoke_named : String → ℕ → ℕ → Manager → Option Manager
  revoke_named jti exp now m =
      if string_eq.beq jti "" || (exp == 0) then none else some (revoke_jti jti exp now m)

  unfoldable pub revoke_found : String → ℕ → ℕ → Manager × Option Claims → Option Manager
  revoke_found jti exp now (m, none) = revoke_named jti exp now m
  revoke_found jti exp now (m, some c) = revoke_named c.jti c.exp now m

  unfoldable pub revoke :
      String → String → String → String → String → ℕ → ℕ → Manager → Option Manager
  revoke role secret token typ jti exp now m =
      if not (role_allows role true)
      then none
      else if string_eq.beq token "" || string_eq.beq secret ""
      then revoke_named jti exp now m
      else revoke_found jti exp now (decode token typ now m)

-- The roles that may log in, in lower case.
unfoldable pub may_log_in : String → Bool
may_log_in role =
    string_eq.beq role "admin"
    || string_eq.beq role "superadmin"
    || string_eq.beq role "admin_ro"
    || string_eq.beq role "admin_readonly"
    || string_eq.beq role "readonly_admin"
    || string_eq.beq role "geofence_editor"

-- What a login comes to: 401, 403, or an access and a refresh token.
pub data Login : Type 0 where
  unauthorized role_refused : Login
  tokens : Claims → Claims → Login

-- `POST /admin/login` of a user whose role is in lower case, `none` if there is none of the name;
-- `password_ok` is what `verify_password` says.
unfoldable pub login :
    String → String → Option String → Bool → ℕ → String → String → Manager → Login
login secret username none password_ok now jti jti' m = unauthorized
login secret username (some role) password_ok now jti jti' m =
    if string_eq.beq secret "" || not password_ok
    then unauthorized
    else if not (may_log_in role)
    then role_refused
    else tokens (mint_access username role now jti m) (mint_refresh username role now jti' m)
