-- ===== src/Geofence/Rings.antt =====
-- Polygons and boxes.
use babilcors.Prelude.{
  ◌≡◌, refl, sym, ap, ◌∙◌, inl, inr, Bool, true, false, not, List, [], ◌∷◌, ◌++◌, if◌then◌else◌,
  arith, Bool-cases,
}
use babilcors.Geofence.{
  Floats, differ, Point, crosses, walk, last_from, point_in_polygon, Box, bbox_intersects,
  same_point, closed_ring,
}

module _ (F : Floats) where
  -- Two boxes meet whichever is named first.
  pub bbox_intersects_comm : (a b : Box F) → bbox_intersects F a b ≡ bbox_intersects F b a
  unfolding bbox_intersects
  bbox_intersects_comm a b = ground arith

  no_edge : (p v : Point F) → crosses F p v v ≡ false
  unfolding crosses differ
  no_edge p v = ground arith

  walk-append :
      (p v w : Point F) (vs : List (Point F)) (inside : Bool)
      → walk F p v (vs ++ w ∷ []) inside ≡ (
          if crosses F p w (last_from F v vs)
          then not (walk F p v vs inside)
          else walk F p v vs inside)
  unfolding walk last_from
  walk-append p v w [] inside = refl
  walk-append p v w (u ∷ vs) inside =
      walk-append p u w vs (if crosses F p u v then not inside else inside)

  walk-not :
      (p v : Point F) (vs : List (Point F)) (inside : Bool)
      → walk F p v vs (not inside) ≡ not (walk F p v vs inside)
  unfolding walk
  walk-not p v [] inside = refl
  walk-not p v (u ∷ vs) inside = elim (Bool-cases (crosses F p u v)) [
    | inl e ↦ rw e (walk-not p u vs (not inside))
    | inr e ↦ rw e (walk-not p u vs inside)
  ]

  toggled :
      (b : Bool) (w : Bool → Bool)
      → w true ≡ not (w false)
      → (if b then not (w false) else w false) ≡ w (if b then true else false)
  toggled true w e = sym e
  toggled false w e = refl

  last-append : (v w : Point F) (vs : List (Point F)) → last_from F v (vs ++ w ∷ []) ≡ w
  unfolding last_from
  last-append v w [] = refl
  last-append v w (u ∷ vs) = last-append u w vs

  closing :
      (p v : Point F) (vs : List (Point F))
      → point_in_polygon F p (v ∷ (vs ++ v ∷ [])) ≡ point_in_polygon F p (v ∷ vs)
  unfolding point_in_polygon walk
  closing p v vs =
      let l = last_from F v vs in
      ap (λ u. walk F p u (v ∷ (vs ++ v ∷ [])) false) (last-append v v vs)
      ∙ ap (λ b. walk F p v (vs ++ v ∷ []) (if b then true else false)) (no_edge p v)
      ∙ walk-append p v v vs false
      ∙ toggled (crosses F p v l) (walk F p v vs) (walk-not p v vs false)

  -- A ring and the ring with its first vertex put at the end again have the same points inside,
  -- so that closing a ring, as it is done for GeoJSON, changes nothing.
  pub point_in_polygon-closed :
      (p : Point F) (ring : List (Point F))
      → point_in_polygon F p (closed_ring F ring) ≡ point_in_polygon F p ring
  unfolding closed_ring
  point_in_polygon-closed p [] = refl
  point_in_polygon-closed p (v ∷ vs) = elim (Bool-cases (same_point F v (last_from F v vs))) [
    | inl same ↦ rw same refl
    | inr open_ended ↦ rw open_ended (closing p v vs)
  ]
