-- ===== src/Caster/Admin/Rate.antt =====
-- How many calls of the admin API an address is allowed.
use babilcors.Prelude.{
  ℕ, ◌+◌, ◌-◌, ◌*◌, ◌≤◌, ◌<◌, ◌≡◌, refl, sym, ap, ◌∙◌, inl, inr, Bool, true, false, some, String,
  List, [], ◌∷◌, ◌==◌, if◌then◌else◌, arith, Bool-cases,
}
use babilcors.Prelude.Int.{ℤ, pos_part}
use babilcors.Prelude.Dict.{string_eq, lookup, insert, lookup-insert, beq_refl}
use babilcors.Tiers.{TokenBucket, consume}
use babilcors.Tiers.Bucket.{IsBounded, Request, granted, granted_bound, InOrder, last_at}
use babilcors.Caster.Admin.{Buckets, bucket_for, admin_rate_ok}

-- Calls, each of an address at a time.
pub allowed : ℤ → String → List (String × ℕ) → Buckets → ℕ
allowed limit ip [] buckets = 0
allowed limit ip ((caller, now) ∷ calls) buckets =
    let (buckets', ok) = admin_rate_ok limit caller now buckets in
    (if string_eq.beq caller ip then (if ok then 1 else 0) else 0) + allowed limit ip calls buckets'

-- The calls of one address, as requests to its bucket.
abbrev pub requests_of : String → List (String × ℕ) → List Request
requests_of ip [] = []
requests_of ip ((caller, now) ∷ calls) =
    if string_eq.beq caller ip
    then record { at = now; amount = 1 } ∷ requests_of ip calls
    else requests_of ip calls

limited : (n : ℕ) (p q : Buckets × Bool) → 0 < n → (if n == 0 then p else q) ≡ q
limited n p q h = ground (arith, h)

rate_ok_self :
    (limit : ℤ) (ip : String) (now : ℕ) (buckets : Buckets) (b : TokenBucket)
    → 0 < pos_part limit
    → bucket_for ip (pos_part limit) now buckets ≡ b
    → admin_rate_ok limit ip now buckets
      ≡ (insert ip (consume now 1 b).0 buckets, (consume now 1 b).1)
unfolding admin_rate_ok
rate_ok_self limit ip now buckets b on e = rw e (
    limited (pos_part limit) (buckets, true)
      (insert ip (consume now 1 b).0 buckets, (consume now 1 b).1) on)

bucket_for-found :
    (ip : String) (limit now : ℕ) (buckets : Buckets) (b : TokenBucket)
    → lookup ip buckets ≡ some b
    → bucket_for ip limit now buckets ≡ b
unfolding bucket_for
bucket_for-found ip limit now buckets b e = ground (arith, e)

lookup_self :
    (ip : String) (b : TokenBucket) (buckets : Buckets) → lookup ip (insert ip b buckets) ≡ some b
lookup_self ip b buckets =
    lookup-insert ip ip b buckets ∙ ap (λ t. if t then some b else lookup ip buckets) (beq_refl ip)

rate_ok-other :
    (limit : ℤ) (caller ip : String) (now : ℕ) (buckets : Buckets)
    → 0 < pos_part limit
    → string_eq.beq caller ip ≡ false
    → lookup ip (admin_rate_ok limit caller now buckets).0 ≡ lookup ip buckets
rate_ok-other limit caller ip now buckets on other =
    let b = bucket_for caller (pos_part limit) now buckets in
    ap (λ p. lookup ip p.0) (rate_ok_self limit caller now buckets b on refl)
    ∙ lookup-insert caller ip (consume now 1 b).0 buckets
    ∙ ap (λ t. if t then some (consume now 1 b).0 else lookup ip buckets) other

allowed-granted :
    (limit : ℤ) (ip : String) (calls : List (String × ℕ)) (buckets : Buckets) (b : TokenBucket)
    → 0 < pos_part limit
    → lookup ip buckets ≡ some b
    → allowed limit ip calls buckets ≡ granted b (requests_of ip calls)
unfolding allowed granted
allowed-granted limit ip [] buckets b on e = refl
allowed-granted limit ip ((caller, now) ∷ calls) buckets b on e =
    elim (Bool-cases (string_eq.beq caller ip)) [
      | inl same ↦
          let b' = (consume now 1 b).0 in
          let name : caller ≡ ip = (string_eq.beq_iff caller ip).0 same in
          let found : bucket_for caller (pos_part limit) now buckets ≡ b =
            bucket_for-found caller (pos_part limit) now buckets b
              (ap (λ k. lookup k buckets) name ∙ e) in
          rw (same, rate_ok_self limit caller now buckets b on found)
            (ap (λ n. (if (consume now 1 b).1 then 1 else 0) + n)
              (allowed-granted limit ip calls (insert caller b' buckets) b' on (
                ap (λ k. lookup k (insert caller b' buckets)) (sym name)
                ∙ lookup_self caller b' buckets)))
      | inr other ↦ rw other (
          omega (
            arith,
            allowed-granted limit ip calls (admin_rate_ok limit caller now buckets).0 b on
                (rate_ok-other limit caller ip now buckets on other ∙ e),
          ))
    ]

-- However many addresses call, one whose bucket is there is allowed no more calls than a full
-- bucket, and what comes in at its rate from its last refill to its last call.
pub allowed_bound :
    (limit : ℤ) (ip : String) (calls : List (String × ℕ)) (buckets : Buckets) (b : TokenBucket)
    → 0 < pos_part limit
    → lookup ip buckets ≡ some b
    → IsBounded b
    → InOrder b.t (requests_of ip calls)
    → allowed limit ip calls buckets * b.unit
      ≤ b.capacity * b.unit + (last_at b.t (requests_of ip calls) - b.t) * b.rate
allowed_bound limit ip calls buckets b on e h order =
    rw (allowed-granted limit ip calls buckets b on e)
      (granted_bound b (requests_of ip calls) h order)
