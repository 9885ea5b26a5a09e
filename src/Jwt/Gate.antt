-- ===== src/Jwt/Gate.antt =====
-- Who passes the gate of the admin API.
use babilcors.Prelude.{
  ℕ, ◌≡◌, ◌≢◌, refl, sym, ap, ◌∙◌, inl, inr, Bool, true, false, Option, none, some, some-injective,
  String, arith, Bool-cases,
}
use mathlib.Core.Option.{none-ne-some}
use babilcors.Prelude.Dict.{string_eq}
use babilcors.Jwt.{
  Claims, Manager, is_revoked, check_claims, if_live, decode, static_claims, role_of, authorise,
}

if_live-same : (c c' : Claims) (p : Manager × Bool) → (if_live c p).1 ≡ some c' → c ≡ c'
unfolding if_live
if_live-same c c' (m, true) e = absurd (none-ne-some c' e)
if_live-same c c' (m, false) e = some-injective c c' e

-- The claims that are accepted are those of the token, of the right type.
check_claims-accepts :
    (expected_type : String) (o : Option Claims) (now : ℕ) (m : Manager) (c : Claims)
    → (check_claims expected_type o now m).1 ≡ some c
    → (o ≡ some c) × (c.typ ≡ expected_type)
unfolding check_claims
check_claims-accepts expected_type none now m c e = absurd (none-ne-some c e)
check_claims-accepts expected_type (some d) now m c e =
    elim (Bool-cases (string_eq.beq d.typ expected_type)) [
      | inr other ↦ absurd (none-ne-some c (rw other at e))
      | inl same ↦
          let typed : d.typ ≡ expected_type = (string_eq.beq_iff d.typ expected_type).0 same in
          let is_d : d ≡ c = elim (Bool-cases (string_eq.beq d.jti "")) [
            | inl nameless ↦ some-injective d c (rw (same, nameless) at e)
            | inr has_name ↦ if_live-same d c (is_revoked d.jti now m) (rw (same, has_name) at e)
          ] in
          (ap some is_d, ap (λ (x : Claims). x.typ) (sym is_d) ∙ typed)
    ]

role_of-some :
    (decode_token : ℕ → String → Option Claims) (p : Manager × Option Claims) (role : String)
    → role_of decode_token p ≡ some role
    → (c : Claims) × (p.1 ≡ some c) × (c.role ≡ role)
unfolding role_of
role_of-some d (m, none) role e = absurd (none-ne-some role e)
role_of-some d (m, some c) role e = (c, refl, some-injective c.role role e)

-- Why a caller passes: it shows the static token of the configuration, which is then not empty,
-- or, with a secret configured, a signed access token with the role that it acts under.
pub data Passes (decode_token : ℕ → String → Option Claims) (secret admin_token bearer : String)
    (now : ℕ) (role : String) : Type 0 where
  by_static :
      admin_token ≢ ""
      → bearer ≡ admin_token
      → role ≡ "admin"
      → Passes decode_token secret admin_token bearer now role
  by_token :
      secret ≢ ""
      → (c : Claims) → decode_token now bearer ≡ some c
      → c.typ ≡ "access"
      → c.role ≡ role
      → Passes decode_token secret admin_token bearer now role

module _ (decode_token : ℕ → String → Option Claims) (secret admin_token bearer : String)
    (now : ℕ) where
  static-Passes :
      (role : String)
      → static_claims decode_token admin_token bearer none ≡ some role
      → Passes decode_token secret admin_token bearer now role
  unfolding static_claims
  static-Passes role e = elim (Bool-cases (string_eq.beq admin_token "")) [
    | inl empty ↦ absurd (none-ne-some role (rw empty at e))
    | inr given ↦ elim (Bool-cases (string_eq.beq bearer admin_token)) [
      | inr other ↦ absurd (none-ne-some role (rw (given, other) at e))
      | inl same ↦
          by_static (λ p. ground (arith, given, (string_eq.beq_iff admin_token "").1 p))
            ((string_eq.beq_iff bearer admin_token).0 same)
            (sym (some-injective "admin" role (rw (given, same) at e)))
    ]
  ]

  found-Passes :
      (o : Option String) (role : String)
      → ((r : String) → o ≡ some r → Passes decode_token secret admin_token bearer now r)
      → static_claims decode_token admin_token bearer o ≡ some role
      → Passes decode_token secret admin_token bearer now role
  unfolding static_claims
  found-Passes none role known e = static-Passes role e
  found-Passes (some r) role known e = known role e

  -- A caller passes the gate of the admin API only with the static token or with a signed
  -- access token, under the role that these give.
  pub authorise-Passes :
      (m : Manager) (role : String)
      → authorise decode_token secret admin_token bearer now m ≡ some role
      → Passes decode_token secret admin_token bearer now role
  unfolding authorise decode
  authorise-Passes m role e = elim (Bool-cases (string_eq.beq secret "")) [
    | inl empty ↦ found-Passes none role (λ r f. absurd (none-ne-some r f)) (rw empty at e)
    | inr given ↦ elim (Bool-cases (string_eq.beq bearer "")) [
      | inl nothing ↦
          found-Passes none role (λ r f. absurd (none-ne-some r f)) (rw (given, nothing) at e)
      | inr shown ↦
          let p = check_claims "access" (decode_token now bearer) now m in
          found-Passes (role_of decode_token p) role
            (λ r f.
              let (c, found, role_is) = role_of-some decode_token p r f in
              let (signed, typed) =
                check_claims-accepts "access" (decode_token now bearer) now m c found in
              by_token (λ q. ground (arith, given, (string_eq.beq_iff secret "").1 q)) c signed
                typed role_is)
            (rw (given, shown) at e)
    ]
  ]
