-- ===== src/Caster/Hub/Source.antt =====
-- One source at a time: `attach_source` and `detach_source`.
use babilcors.Prelude.{
  ℕ, ◌+◌, ◌≡◌, ◌≢◌, refl, sym, ap, ◌∙◌, ◌⊎◌, inl, inr, true, false, none, some, some-injective,
  String, List, [], ◌∷◌, All, arith, Bool-cases, Option-cases,
}
use mathlib.Core.Option.{some-ne-none}
use babilcors.Prelude.Dict.{string_eq}
use babilcors.Caster.Hub.{Hub, on_source_data, attach_source, add_rover, remove_rover}
use babilcors.Caster.Hub.Fanout.{on_source_data-Offered}
use babilcors.Caster.Hub.Totals.{
  Event, attaches, detaches, joins, leaves, receives, apply, run, left_behind,
}

attach_source-first :
    (addr : String) (h : Hub)
    → h.source_addr ≡ none
    → attach_source addr h ≡ (record h { source_addr = some addr }, true)
unfolding attach_source
attach_source-first addr h e = ground (arith, e)

attach_source-again :
    (addr a : String) (h : Hub)
    → h.source_addr ≡ some a
    → string_eq.beq a addr ≡ true
    → attach_source addr h ≡ (record h { source_addr = some addr }, true)
unfolding attach_source
attach_source-again addr a h e same = ground (arith, e, same)

attach_source-busy :
    (addr a : String) (h : Hub)
    → h.source_addr ≡ some a
    → string_eq.beq a addr ≡ false
    → attach_source addr h ≡ (h, false)
unfolding attach_source
attach_source-busy addr a h e other = ground (arith, e, other)

other_name : (a b : String) → string_eq.beq a b ≡ false → a ≢ b
other_name a b other p = ground (arith, other, string_eq.beq_iff a b, p)

-- An attachment succeeds exactly if there is no other source; then the source is the one asked
-- for, and otherwise the hub stays as it was.
pub attach_source-exclusive :
    (addr : String) (h : Hub)
    → (((attach_source addr h).1 ≡ true)
        × ((attach_source addr h).0.source_addr ≡ some addr)
        × ((h.source_addr ≡ none) ⊎ (h.source_addr ≡ some addr)))
      ⊎ (((attach_source addr h).1 ≡ false)
          × ((attach_source addr h).0 ≡ h)
          × ((a : String) × (h.source_addr ≡ some a) × (a ≢ addr)))
attach_source-exclusive addr h = elim (Option-cases h.source_addr) [
  | inl e ↦ rw (attach_source-first addr h e) (inl (refl, refl, inl e))
  | inr (a, e) ↦ elim (Bool-cases (string_eq.beq a addr)) [
    | inl same ↦
        rw (attach_source-again addr a h e same)
          (inl (refl, refl, inr (e ∙ ap some ((string_eq.beq_iff a addr).0 same))))
    | inr other ↦
        rw (attach_source-busy addr a h e other) (inr (refl, refl, (a, e, other_name a addr other)))
  ]
]

abbrev pub IsNoDetach : Event → Type 0
IsNoDetach detaches = ⊥
IsNoDetach (attaches addr) = Unit
IsNoDetach (joins s) = Unit
IsNoDetach (leaves i) = Unit
IsNoDetach (receives chunk now) = Unit

apply-source :
    (e : Event) (a : String) (h : Hub)
    → IsNoDetach e
    → h.source_addr ≡ some a
    → (apply e h).source_addr ≡ some a
unfolding apply
apply-source (attaches addr) a h n e = elim (attach_source-exclusive addr h) [
  | inl (ok, src, inl f) ↦ absurd (some-ne-none a (sym e ∙ f))
  | inl (ok, src, inr f) ↦ src ∙ sym f ∙ e
  | inr (refused, same, other) ↦ ap (λ g. g.source_addr) same ∙ e
]
apply-source detaches a h n e = absurd n
apply-source (joins s) a h n e = unfold add_rover in ground (arith, e)
apply-source (leaves i) a h n e = unfold remove_rover in e
apply-source (receives [] now) a h n e = unfold on_source_data in e
apply-source (receives (b ∷ rest) now) a h n e = (on_source_data-Offered b rest now h).3 ∙ e

-- Until the source is detached, no operation puts another one in its place, and every attempt
-- to attach another one fails.
pub run-source :
    (es : List Event) (gone : ℕ) (a b : String) (h : Hub)
    → All IsNoDetach es
    → h.source_addr ≡ some a
    → a ≢ b
    → ((run es gone h).1.source_addr ≡ some a) × ((attach_source b (run es gone h).1).1 ≡ false)
unfolding run
run-source [] gone a b h ns e other = (
  e,
  elim (attach_source-exclusive b h) [
    | inl (ok, src, inl f) ↦ absurd (some-ne-none a (sym e ∙ f))
    | inl (ok, src, inr f) ↦ absurd (other (some-injective a b (sym e ∙ f)))
    | inr (refused, same, third) ↦ refused
  ],
)
run-source (ev ∷ es) gone a b h (n, ns) e other =
    run-source es (gone + left_behind ev h) a b (apply ev h) ns (apply-source ev a h n e) other
