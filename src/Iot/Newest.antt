-- ===== src/Iot/Newest.antt =====
-- A subscriber's queue holds the newest envelopes.
use babilcors.Prelude.{
  ℕ, zero, suc, ◌+◌, ◌-◌, ◌≤◌, ◌<◌, ◌≡◌, refl, sym, ap, ◌∙◌, inl, inr, true, false, List, [], ◌∷◌,
  ◌++◌, append_assoc, append-nil, length, length-append, length-drop, drop, drop-append, arith,
  Bool-cases,
}
use babilcors.Iot.{Subscriber, is_full, deliver}

module _ {E : Type 0} where
  pub run : List E → Subscriber E → Subscriber E
  run [] q = q
  run (e ∷ es) q = run es (deliver e q)

  -- The last `n` elements.
  abbrev pub newest : ℕ → List E → List E
  newest n xs = drop (length xs - n) xs

  drop-nil : (m : ℕ) → drop {A = E} m [] ≡ []
  drop-nil zero = refl
  drop-nil (suc m) = refl

  drop-by : (m n : ℕ) (xs : List E) → m ≡ n → drop m xs ≡ drop n xs
  drop-by m n xs e = ap (λ k. drop k xs) e

  drop-drop : (m n : ℕ) (xs : List E) → drop m (drop n xs) ≡ drop (n + m) xs
  drop-drop m zero xs = ap (λ k. drop k xs) (omega arith)
  drop-drop m (suc n) [] = drop-nil m ∙ sym (drop-nil (suc n + m))
  drop-drop m (suc n) (x ∷ xs) = drop-drop m n xs ∙ ap (λ k. drop k (x ∷ xs)) (more n m)
    where
      more : (n m : ℕ) → suc (n + m) ≡ suc n + m
      more n m = omega arith

  newest-absorbs : (n : ℕ) (xs ys : List E) → newest n (newest n xs ++ ys) ≡ newest n (xs ++ ys)
  newest-absorbs n xs ys =
      let k = length xs - n in
      let joined : drop k xs ++ ys ≡ drop k (xs ++ ys) = sym (drop-append k xs ys (omega arith)) in
      ap (newest n) joined
      ∙ drop-drop (length (drop k (xs ++ ys)) - n) k (xs ++ ys)
      ∙ ap (λ j. drop j (xs ++ ys)) (omega (arith, length-drop k (xs ++ ys), length-append xs ys))

  full_is : (q : Subscriber E) → 0 < q.maxsize → is_full q ≡ true → q.maxsize ≤ length q.queue
  unfolding is_full
  full_is q pos e = ground (arith, e)

  full_size : (q : Subscriber E) → 0 < q.maxsize → is_full q ≡ true → 1 ≤ length q.queue
  full_size q pos e = omega (arith, full_is q pos e)

  room_size : (q : Subscriber E) → 0 < q.maxsize → is_full q ≡ false → length q.queue < q.maxsize
  unfolding is_full
  room_size q pos e = ground (arith, e)

  deliver-newest :
      (e : E) (q : Subscriber E)
      → 0 < q.maxsize
      → length q.queue ≤ q.maxsize
      → (deliver e q).queue ≡ newest q.maxsize (q.queue ++ e ∷ [])
  unfolding deliver
  deliver-newest e q pos h =
      let whole = q.queue ++ e ∷ [] in
      elim (Bool-cases (is_full q)) [
        | inl full ↦ rw full (
            sym (drop-append 1 q.queue (e ∷ []) (full_size q pos full))
            ∙ drop-by 1 (length whole - q.maxsize) whole (
                omega (
                  arith,
                  full_size q pos full,
                  full_is q pos full,
                  h,
                  length-append q.queue (e ∷ []),
                )))
        | inr room ↦ rw room (
            drop-by 0 (length whole - q.maxsize) whole
              (omega (arith, room_size q pos room, length-append q.queue (e ∷ []))))
      ]

  deliver-le :
      (e : E) (q : Subscriber E)
      → 0 < q.maxsize
      → length q.queue ≤ q.maxsize
      → length (deliver e q).queue ≤ q.maxsize
  deliver-le e q pos h = omega (
    arith,
    ap length (deliver-newest e q pos h),
    length-drop (length (q.queue ++ e ∷ []) - q.maxsize) (q.queue ++ e ∷ []),
  )

  -- After some envelopes of which the subscriber has taken none out, its queue holds the newest
  -- of what it held and of them, as many as its bound says, in their order.
  pub run-newest :
      (es : List E) (q : Subscriber E)
      → 0 < q.maxsize
      → length q.queue ≤ q.maxsize
      → (run es q).queue ≡ newest q.maxsize (q.queue ++ es)
  unfolding run deliver
  run-newest [] q pos h =
      let all : q.queue ++ [] ≡ q.queue = append-nil q.queue in
      sym all
      ∙ drop-by 0 (length (q.queue ++ []) - q.maxsize) (q.queue ++ [])
          (omega (arith, ap length all, h))
  run-newest (e ∷ es) q pos h =
      run-newest es (deliver e q) pos (deliver-le e q pos h)
      ∙ ap (λ l. newest q.maxsize (l ++ es)) (deliver-newest e q pos h)
      ∙ newest-absorbs q.maxsize (q.queue ++ e ∷ []) es
      ∙ ap (newest q.maxsize) (append_assoc q.queue (e ∷ []) es)
