-- ===== src/Jwt/Revocation.antt =====
-- A revoked token stays revoked until it expires.
use babilcors.Prelude.{
  ℕ, ◌<◌, ◌≡◌, ◌≢◌, refl, sym, ap, ◌∙◌, inl, inr, true, Option, none, some, some-injective, String,
  List, [], ◌∷◌, leb, All, arith, Bool-cases,
}
use babilcors.Prelude.Dict.{string_eq, lookup, lookup-insert, lookup-remove, beq_refl}
use babilcors.Jwt.{Manager, revoke_jti, still_revoked, is_revoked}

-- Calls on the store of revoked tokens, each at its time.
pub data Call : Type 0 where
  revokes : String → ℕ → ℕ → Call
  checks : String → ℕ → Call

pub run : List Call → Manager → Manager
run [] m = m
run (revokes jti exp now ∷ cs) m = run cs (revoke_jti jti exp now m)
run (checks jti now ∷ cs) m = run cs (is_revoked jti now m).0

-- Calls before a time, none of which revokes this token again.
abbrev pub Leaves : String → ℕ → Call → Type 0
Leaves jti exp (revokes j e now) = j ≢ jti
Leaves jti exp (checks j now) = now < exp

revokes-keeps :
    (jti j : String) (exp e now : ℕ) (m : Manager)
    → j ≢ jti
    → lookup jti m.revoked ≡ some exp
    → lookup jti (revoke_jti j e now m).revoked ≡ some exp
unfolding revoke_jti
revokes-keeps jti j exp e now m ne h =
    ground (arith, h, lookup-insert j jti e m.revoked, string_eq.beq_iff j jti, ne)

checks-keeps :
    (jti j : String) (exp now : ℕ) (m : Manager) (o : Option ℕ)
    → now < exp
    → lookup j m.revoked ≡ o
    → lookup jti m.revoked ≡ some exp
    → lookup jti (still_revoked j o now m).0.revoked ≡ some exp
unfolding still_revoked
checks-keeps jti j exp now m none h o e = e
checks-keeps jti j exp now m (some x) h o e =
    let same_name : string_eq.beq j jti ≡ true → some x ≡ some exp =
      λ b. sym o ∙ ap (λ i. lookup i m.revoked) ((string_eq.beq_iff j jti).0 b) ∙ e in
    elim (Bool-cases (leb x now)) [
      | inr live ↦ rw live e
      | inl over ↦ rw over (elim (Bool-cases (string_eq.beq j jti)) [
        | inl same ↦ absurd (ground (arith, over, some-injective x exp (same_name same), h))
        | inr other ↦ rw (lookup-remove j jti m.revoked, other) e
      ])
    ]

pub still_revoked-now :
    (jti : String) (exp now : ℕ) (m : Manager)
    → now < exp
    → lookup jti m.revoked ≡ some exp
    → is_revoked jti now m ≡ (m, true)
unfolding is_revoked still_revoked
still_revoked-now jti exp now m h e = ground (arith, e)

pub run-keeps :
    (cs : List Call) (jti : String) (exp : ℕ) (m : Manager)
    → All (Leaves jti exp) cs
    → lookup jti m.revoked ≡ some exp
    → lookup jti (run cs m).revoked ≡ some exp
unfolding run
run-keeps [] jti exp m a e = e
run-keeps (revokes j x now ∷ cs) jti exp m (a, as') e =
    run-keeps cs jti exp (revoke_jti j x now m) as' (revokes-keeps jti j exp x now m a e)
run-keeps (checks j now ∷ cs) jti exp m (a, as') e =
    run-keeps cs jti exp (is_revoked j now m).0 as'
      (unfold is_revoked in checks-keeps jti j exp now m (lookup j m.revoked) a refl e)

pub revoke_jti-stores :
    (jti : String) (exp now : ℕ) (m : Manager)
    → now < exp
    → lookup jti (revoke_jti jti exp now m).revoked ≡ some exp
unfolding revoke_jti
revoke_jti-stores jti exp now m h =
    ground (arith, lookup-insert jti jti exp m.revoked, beq_refl jti)

-- A token that is revoked before it expires is found revoked at any later time before that,
-- whatever is called in between that does not revoke it again.
pub run-revoked :
    (cs : List Call) (jti : String) (exp now later : ℕ) (m : Manager)
    → now < exp
    → later < exp
    → All (Leaves jti exp) cs
    → (is_revoked jti later (run cs (revoke_jti jti exp now m))).1 ≡ true
run-revoked cs jti exp now later m h k a =
    let kept =
      run-keeps cs jti exp (revoke_jti jti exp now m) a (revoke_jti-stores jti exp now m h) in
    ap (λ p. p.1) (still_revoked-now jti exp later (run cs (revoke_jti jti exp now m)) k kept)
