-- ===== src/Jwt/Tests.antt =====
-- The theorems on tokens at concrete inputs.
use babilcors.Prelude.{
  ℕ, ◌<◌, ◌≡◌, ◌≢◌, refl, sym, ◌∙◌, subst, true, Option, none, some, some-injective, String, List,
  [], ◌∷◌, arith, ltb, ltb→lt, if◌then◌else◌, Bool-cases, inl, inr,
}
use mathlib.Core.Option.{none-ne-some, some-ne-none}
use babilcors.Prelude.Dict.{string_eq, lookup}
use babilcors.Jwt.{
  Claims, Manager, revoke_jti, is_revoked, still_revoked, check_claims, if_live, decode, rotate,
  refresh, authorise, static_claims, role_of,
}
use babilcors.Jwt.Revocation.{Call, revokes, checks, run, run-revoked}
use babilcors.Jwt.Refresh.{IsSound, refresh-once}
use babilcors.Jwt.Gate.{Passes, authorise-Passes}

abbrev manager : Manager
manager = record { access_exp_s = 900; refresh_exp_s = 604800; revoked = [] }

abbrev calls : List Call
calls = checks "a" 20 ∷ revokes "b" 90 30 ∷ checks "b" 40 ∷ []

abbrev name_a : String
name_a = "a"

abbrev name_b : String
name_b = "b"

other_name : name_b ≢ name_a
other_name p = ground (arith, (string_eq.beq_iff name_b name_a).1 p)

run-revoked_case : (is_revoked "a" 60 (run calls (revoke_jti "a" 100 10 manager))).1 ≡ true
run-revoked_case =
    run-revoked calls "a" 100 10 60 manager (omega arith) (omega arith)
      (omega arith, (other_name, (omega arith, tt)))

-- A decoder that knows one refresh token, until it expires.
abbrev claims : Claims
claims = record { sub = "ops"; role = "admin"; typ = "refresh"; iat = 5; exp = 100; jti = "a" }

abbrev decoder : ℕ → String → Option Claims
decoder now t = if ltb now 100 then some claims else none

decoder-knows :
    (now : ℕ) (t : String) (c : Claims) → decoder now t ≡ some c → (now < 100) × (claims ≡ c)
decoder-knows now t c e = elim (Bool-cases (ltb now 100)) [
  | inl early ↦ (ltb→lt now 100 early, some-injective claims c (rw early at e))
  | inr late ↦ absurd (none-ne-some c (rw late at e))
]

decoder-IsSound : IsSound decoder
decoder-IsSound = record {
  unexpired = λ now t c e.
      let (early, same) = decoder-knows now t c e in subst (λ (d : Claims). now < d.exp) same early;
  stable =
      λ now later t c c' e e'. sym (decoder-knows now t c e).1 ∙ (decoder-knows later t c' e').1;
}

refresh_works : (refresh decoder "t" "x" "y" 10 manager).1 ≢ none
unfolding refresh decode rotate check_claims if_live is_revoked still_revoked lookup
refresh_works e = some-ne-none {A = Claims × Claims} _ e

named : claims.jti ≢ ""
named p = ground (arith, (string_eq.beq_iff claims.jti "").1 p)

refresh-once_example :
    (refresh decoder "t" "v" "w" 50 (run calls (refresh decoder "t" "x" "y" 10 manager).0)).1 ≡ none
refresh-once_example =
    refresh-once decoder "t" "x" "y" "v" "w" claims 10 50 calls manager decoder-IsSound refl named
      refresh_works (omega arith, (other_name, (omega arith, tt)))

static_passes : authorise decoder "secret" "static" "static" 200 manager ≡ some "admin"
unfolding authorise static_claims role_of decode check_claims
static_passes = refl

authorise-Passes_example : Passes decoder "secret" "static" "static" 200 "admin"
authorise-Passes_example =
    authorise-Passes decoder "secret" "static" "static" 200 manager "admin" static_passes
