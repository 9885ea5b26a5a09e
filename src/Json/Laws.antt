-- ===== src/Json/Laws.antt =====
-- The laws of dictionaries.
use babilcors.Prelude.{◌≡◌, ◌↔◌, refl, true, none, some, [], ◌∷◌, if◌then◌else◌, arith}
use babilcors.Json.{Text, Value, Fields, end, field, same_text, get, put, del}

pub same_text-eq : (s t : Text) → same_text s t ≡ true → s ≡ t
unfolding same_text
same_text-eq [] [] h = refl
same_text-eq [] (d ∷ u) h = cc
same_text-eq (c ∷ s) [] h = cc
same_text-eq (c ∷ s) (d ∷ u) h = ground (arith, h, same_text-eq s u)

pub same_text_refl : (s : Text) → same_text s s ≡ true
unfolding same_text
same_text_refl [] = refl
same_text_refl (c ∷ s) = ground (arith, same_text_refl s)

pub same_text_iff : (s t : Text) → (same_text s t ≡ true) ↔ (s ≡ t)
same_text_iff s t = (same_text-eq s t, λ e. rw e (same_text_refl t))

pub get-put :
    (k j : Text) (v : Value) (fs : Fields)
    → get j (put k v fs) ≡ (if same_text k j then some v else get j fs)
unfolding get put
get-put k j v end = refl
get-put k j v (field i w fs) =
    ground (arith, same_text_iff k j, same_text_iff i k, same_text_iff i j, get-put k j v fs)

pub get-del :
    (k j : Text) (fs : Fields) → get j (del k fs) ≡ (if same_text k j then none else get j fs)
unfolding get del
get-del k j end = ground arith
get-del k j (field i w fs) =
    ground (arith, same_text_iff k j, same_text_iff i k, same_text_iff i j, get-del k j fs)
