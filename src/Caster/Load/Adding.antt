-- ===== src/Caster/Load/Adding.antt =====
-- A tier that is posted to the admin API is the one that `load_config` then reads.
use babilcors.Prelude.{
  zero, suc, ◌≡◌, refl, ap, ◌∙◌, Bool, true, false, ◌||◌, Option, none, some, List, [], ◌∷◌, ◌++◌,
  if◌then◌else◌, ◌>>=◌, or_else, arith,
}
use babilcors.Prelude.Int.{ℤ, pos, negsuc}
use babilcors.Tiers.{Tier}
use babilcors.Json.{
  Text, codes, Value, null, bool, int, float, text, array, object, Fields, end, field, get, put,
  get_or_null, truthy, as_object, or_empty, or_default, same_text, has_key,
}
use babilcors.Json.Laws.{get-put, same_text_refl}
use babilcors.Caster.Routes.{Host}
use babilcors.Caster.Routes.Resources.{int_field, new_tier_entry}
use babilcors.Caster.Load.{Sections, section, collect, sections, build_tier, load_tiers}

-- Another section stays as it is, and a section that is put is there.
section-put_other :
    (k j : Text) (v : Value) (raw : Fields)
    → same_text j k ≡ false
    → section k (put j v raw) ≡ section k raw
unfolding section or_empty get_or_null
section-put_other k j v raw other = rw (get-put j k v raw, other) refl

section-put : (k : Text) (fs raw : Fields) → section k (put k (object fs) raw) ≡ some fs
unfolding section or_empty get_or_null truthy as_object
section-put k end raw = rw (get-put k k (object end) raw, same_text_refl k) refl
section-put k (field j v fs) raw =
    rw (get-put k k (object (field j v fs)) raw, same_text_refl k) refl

found_object :
    (v : Option Value) (es : Fields)
    → as_object (or_else v (object end)) ≡ some es
    → as_object (if truthy (or_else v null) then or_else v null else object end) ≡ some es
unfolding as_object truthy
found_object none es h = h
found_object (some (object end)) es h = h
found_object (some (object (field k v fs))) es h = h
found_object (some null) es h = absurd (ground (arith, h))
found_object (some (bool b)) es h = absurd (ground (arith, h))
found_object (some (int n)) es h = absurd (ground (arith, h))
found_object (some (float f)) es h = absurd (ground (arith, h))
found_object (some (text t)) es h = absurd (ground (arith, h))
found_object (some (array vs)) es h = absurd (ground (arith, h))

pub section-default :
    (k : Text) (es raw : Fields) → as_object (or_default k raw) ≡ some es → section k raw ≡ some es
unfolding section or_empty or_default get_or_null
section-default k es raw h = found_object (get k raw) es h

collect-tiers :
    (a b c d e f g : Option Fields) (ts : Fields) (s : Sections)
    → collect a b c d e f g ≡ some s
    → collect a b c d (some ts) f g ≡ some (record s { tiers = ts })
unfolding collect
collect-tiers a b c d e f g ts s h = ground (arith, h)

tiers-collect :
    (a b c d f g : Option Fields) (ts : Fields) (s : Sections)
    → collect a b c d (some ts) f g ≡ some s
    → ts ≡ s.tiers
unfolding collect
tiers-collect a b c d f g ts s h = ground (arith, h)

pub sections-tiers :
    (raw es : Fields) (s : Sections)
    → section (codes "tiers") raw ≡ some es
    → sections raw ≡ some s
    → es ≡ s.tiers
unfolding sections
sections-tiers raw es s found h =
    tiers-collect (section (codes "listen") raw) (section (codes "logging") raw)
      (section (codes "sourcetable") raw) (section (codes "sources") raw)
      (section (codes "users") raw) (section (codes "limits") raw) es s (rw found at h)

pub sections-put :
    (ts raw : Fields) (s : Sections)
    → sections raw ≡ some s
    → sections (put (codes "tiers") (object ts) raw) ≡ some (record s { tiers = ts })
unfolding sections same_text
sections-put ts raw s h =
    rw
      (
        section-put_other (codes "listen") (codes "tiers") (object ts) raw refl,
        section-put_other (codes "logging") (codes "tiers") (object ts) raw refl,
        section-put_other (codes "sourcetable") (codes "tiers") (object ts) raw refl,
        section-put_other (codes "sources") (codes "tiers") (object ts) raw refl,
        section-put_other (codes "users") (codes "tiers") (object ts) raw refl,
        section-put_other (codes "limits") (codes "tiers") (object ts) raw refl,
        section-put (codes "tiers") ts raw,
      )
      (collect-tiers (section (codes "listen") raw) (section (codes "logging") raw)
        (section (codes "sourcetable") raw) (section (codes "sources") raw)
        (section (codes "tiers") raw) (section (codes "users") raw) (section (codes "limits") raw)
        ts s h)

-- The entry of a tier, as the API writes it.
abbrev pub tier_fields : Tier → Fields
tier_fields t = field (codes "rate_limit_bps") (int t.rate_limit_bps) (
    field (codes "max_epochs_per_minute") (int t.max_epochs_per_minute)
      (field (codes "max_queue_bytes") (int t.max_queue_bytes) end))

entry-map :
    (a b c : Option ℤ)
    → (a >>= λ r. b >>= λ e. c >>= λ q. some (
        object (
          tier_fields
            (record { rate_limit_bps = r; max_epochs_per_minute = e; max_queue_bytes = q }))))
      ≡ ((a >>= λ r. b >>= λ e. c >>= λ q.
            some (record { rate_limit_bps = r; max_epochs_per_minute = e; max_queue_bytes = q }))
          >>= λ t. some (object (tier_fields t)))
entry-map none b c = refl
entry-map (some r) none c = refl
entry-map (some r) (some e) none = refl
entry-map (some r) (some e) (some q) = refl

neither : (a b : Bool) → a || b ≡ false → (a ≡ false) × (b ≡ false)
neither true b h = absurd (ground (arith, h))
neither false b h = (refl, h)

-- A list that is read in front of one that grows at its end.
cons-grown :
    (k : Text) (a : Option Tier) (b c : Option (List (Text × Tier))) (known : List (Text × Tier))
    (p : Text × Tier)
    → ((ks : List (Text × Tier)) → b ≡ some ks → c ≡ some (ks ++ p ∷ []))
    → (a >>= λ t. b >>= λ ts. some ((k, t) ∷ ts)) ≡ some known
    → (a >>= λ t. c >>= λ ts. some ((k, t) ∷ ts)) ≡ some (known ++ p ∷ [])
cons-grown k none b c known p grown h = absurd (ground (arith, h))
cons-grown k (some t) none c known p grown h = absurd (ground (arith, h))
cons-grown k (some t) (some ks) c known p grown h =
    rw (grown ks refl) (ap (λ o. o >>= λ l. some (l ++ p ∷ [])) h)

module _ (H : Host) (reads_int : (n : ℤ) → H.to_int (int n) ≡ some n) where
  int_or_zero : (n : ℤ) → (if truthy (int n) then H.to_int (int n) else some (pos 0)) ≡ some n
  unfolding truthy
  int_or_zero (pos zero) = refl
  int_or_zero (pos (suc n)) = reads_int (pos (suc n))
  int_or_zero (negsuc n) = reads_int (negsuc n)

  build_tier-fields : (t : Tier) → build_tier H (tier_fields t) ≡ some t
  unfolding build_tier int_field get_or_null get same_text
  build_tier-fields t =
      rw
        (
          int_or_zero t.rate_limit_bps,
          int_or_zero t.max_epochs_per_minute,
          int_or_zero t.max_queue_bytes,
        )
        refl

  pub new_tier_entry-built :
      (check : Value → Bool) (body : Fields) (t : Tier)
      → build_tier H body ≡ some t
      → new_tier_entry H check body ≡ some (object (tier_fields t))
  unfolding build_tier new_tier_entry
  new_tier_entry-built check body t h =
      entry-map (int_field H body (codes "rate_limit_bps"))
        (int_field H body (codes "max_epochs_per_minute"))
        (int_field H body (codes "max_queue_bytes"))
      ∙ ap (λ o. o >>= λ t. some (object (tier_fields t))) h

  abbrev Goes : Text → Option Fields → Option (List (Text × Tier)) → List (Text × Tier) → Type 0
  Goes k o rest known =
      elim o [ none ↦ rest | some d ↦ (build_tier H d >>= λ t. rest >>= λ ts. some ((k, t) ∷ ts)) ]
      ≡ some known

  entry-grown :
      (k : Text) (o : Option Fields) (b c : Option (List (Text × Tier)))
      (known : List (Text × Tier)) (p : Text × Tier)
      → ((ks : List (Text × Tier)) → b ≡ some ks → c ≡ some (ks ++ p ∷ []))
      → Goes k o b known
      → Goes k o c (known ++ p ∷ [])
  entry-grown k none b c known p grown h = grown known h
  entry-grown k (some d) b c known p grown h = cons-grown k (build_tier H d) b c known p grown h

  pub load_tiers-put :
      (name : Text) (t : Tier) (es : Fields) (known : List (Text × Tier))
      → has_key name es ≡ false
      → load_tiers H es ≡ some known
      → load_tiers H (put name (object (tier_fields t)) es) ≡ some (known ++ (name, t) ∷ [])
  unfolding load_tiers put has_key as_object
  load_tiers-put name t end known absent h =
      rw (build_tier-fields t) (ap (λ o. o >>= λ l. some (l ++ (name, t) ∷ [])) h)
  load_tiers-put name t (field k v es) known absent h =
      let (other, rest) = neither (same_text k name) (has_key name es) absent in
      rw other (
        entry-grown k (as_object v) (load_tiers H es)
          (load_tiers H (put name (object (tier_fields t)) es)) known (name, t)
          (λ ks. load_tiers-put name t es ks rest) h)
