-- ===== src/Jwt/Refresh.antt =====
-- A refresh token works once.
use babilcors.Prelude.{
  ℕ, ◌<◌, ◌≡◌, ◌≢◌, refl, sym, ap, ◌∙◌, subst, inl, inr, Bool, true, false, Option, none, some,
  some-injective, String, List, All, Bool-cases,
}
use mathlib.Core.Option.{none-ne-some, some-ne-none}
use babilcors.Prelude.Dict.{string_eq, lookup}
use babilcors.Jwt.{
  Claims, Manager, revoke_jti, is_revoked, check_claims, if_live, decode, rotate, refresh,
}
use babilcors.Jwt.Revocation.{Call, Leaves, run, still_revoked-now, run-keeps, revoke_jti-stores}

-- What PyJWT promises: an expired token has no claims, and a token's claims stay the same.
pub record IsSound (decode_token : ℕ → String → Option Claims) : Type 0 where
  pub unexpired : (now : ℕ) (t : String) (c : Claims) → decode_token now t ≡ some c → now < c.exp
  pub stable :
      (now later : ℕ) (t : String) (c c' : Claims)
      → decode_token now t ≡ some c
      → decode_token later t ≡ some c'
      → c ≡ c'

revoked-refused :
    (expected_type : String) (c : Claims) (now : ℕ) (m : Manager)
    → c.jti ≢ ""
    → now < c.exp
    → lookup c.jti m.revoked ≡ some c.exp
    → (check_claims expected_type (some c) now m).1 ≡ none
unfolding check_claims if_live
revoked-refused expected_type c now m named h e =
    let live = still_revoked-now c.jti c.exp now m h e in
    elim (Bool-cases (string_eq.beq c.typ expected_type)) [
      | inr other ↦ rw other refl
      | inl same ↦ elim (Bool-cases (string_eq.beq c.jti "")) [
        | inl nameless ↦ absurd (named ((string_eq.beq_iff c.jti "").0 nameless))
        | inr has_name ↦ rw (same, has_name, live) refl
      ]
    ]

if_live-same : (c c' : Claims) (p : Manager × Bool) → (if_live c p).1 ≡ some c' → c ≡ c'
unfolding if_live
if_live-same c c' (m, true) e = absurd (none-ne-some c' e)
if_live-same c c' (m, false) e = some-injective c c' e

check_claims-same :
    (expected_type : String) (c c' : Claims) (now : ℕ) (m : Manager)
    → (check_claims expected_type (some c) now m).1 ≡ some c'
    → c ≡ c'
unfolding check_claims
check_claims-same expected_type c c' now m e =
    elim (Bool-cases (string_eq.beq c.typ expected_type)) [
      | inr other ↦ absurd (none-ne-some c' (rw other at e))
      | inl same ↦ elim (Bool-cases (string_eq.beq c.jti "")) [
        | inl nameless ↦ some-injective c c' (rw (same, nameless) at e)
        | inr has_name ↦ if_live-same c c' (is_revoked c.jti now m) (rw (same, has_name) at e)
      ]
    ]

module _ (decode_token : ℕ → String → Option Claims) where
  rotate-revokes :
      (a b : String) (now : ℕ) (p : Manager × Option Claims)
      → (rotate decode_token a b now p).1 ≢ none
      → (c : Claims) × (p.1 ≡ some c)
        × ((rotate decode_token a b now p).0 ≡ revoke_jti c.jti c.exp now p.0)
  unfolding rotate
  rotate-revokes a b now (m, none) h = absurd (h refl)
  rotate-revokes a b now (m, some c) h = (c, refl, refl)

  rotate-refuses :
      (a b : String) (now : ℕ) (p : Manager × Option Claims)
      → p.1 ≡ none
      → (rotate decode_token a b now p).1 ≡ none
  unfolding rotate
  rotate-refuses a b now (m, none) e = refl
  rotate-refuses a b now (m, some c) e = absurd (some-ne-none c e)

  refused :
      (c : Claims) (later : ℕ) (m : Manager) (o : Option Claims)
      → c.jti ≢ ""
      → lookup c.jti m.revoked ≡ some c.exp
      → ((c' : Claims) → o ≡ some c' → (c ≡ c') × (later < c'.exp))
      → (check_claims "refresh" o later m).1 ≡ none
  unfolding check_claims
  refused c later m none named e known = refl
  refused c later m (some c') named e known =
      let (same, live) = known c' refl in
      subst
        (λ (d : Claims).
          d.jti ≢ ""
          → lookup d.jti m.revoked ≡ some d.exp
          → (check_claims "refresh" (some c') later m).1 ≡ none)
        (sym same) (λ n k. revoked-refused "refresh" c' later m n live k) named e

  -- A refresh token that has a name works once: after a refresh with it, another one fails,
  -- whenever it comes, and whatever is called in between that does not revoke it again.
  pub refresh-once :
      (token a b a' b' : String) (c : Claims) (now later : ℕ) (cs : List Call) (m : Manager)
      → IsSound decode_token
      → decode_token now token ≡ some c
      → c.jti ≢ ""
      → (refresh decode_token token a b now m).1 ≢ none
      → All (Leaves c.jti c.exp) cs
      → (refresh decode_token token a' b' later (run cs (refresh decode_token token a b now m).0)).1
        ≡ none
  unfolding refresh decode
  refresh-once token a b a' b' c now later cs m s e named ok left =
      let p = check_claims "refresh" (decode_token now token) now m in
      let (c₁, found, after) = rotate-revokes a b now p ok in
      let same : c ≡ c₁ =
        check_claims-same "refresh" c c₁ now m
          (ap (λ o. (check_claims "refresh" o now m).1) (sym e) ∙ found) in
      let m' = (rotate decode_token a b now p).0 in
      let stored : lookup c.jti m'.revoked ≡ some c.exp =
        subst (λ (d : Claims). lookup d.jti m'.revoked ≡ some d.exp) (sym same)
          (ap (λ n. lookup c₁.jti n.revoked) after
            ∙ revoke_jti-stores c₁.jti c₁.exp now p.0
                (subst (λ (d : Claims). now < d.exp) same (s.unexpired now token c e))) in
      rotate-refuses a' b' later
        (check_claims "refresh" (decode_token later token) later (run cs m'))
        (refused c later (run cs m') (decode_token later token) named
          (run-keeps cs c.jti c.exp m' left stored)
          (λ c' e'. (s.stable now later token c c' e e', s.unexpired later token c' e')))
