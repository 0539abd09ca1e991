-- ===== src/Text/Order.antt =====
-- The order of texts is total and antisymmetric, and equality of texts is decided.
use forex_ea.Prelude.{ℕ, ◌≡◌, refl, true, false, List, [], ◌∷◌, arith}
use forex_ea.Text.{same_text, le_text}

pub same_text_refl : (s : List ℕ) → same_text s s ≡ true
same_text_refl [] = refl
same_text_refl (c ∷ s) = ground (arith, same_text_refl s)

pub eq_of_same_text : (s t : List ℕ) → same_text s t ≡ true → s ≡ t
eq_of_same_text [] [] h = refl
eq_of_same_text [] (d ∷ t) h = cc
eq_of_same_text (c ∷ s) [] h = cc
eq_of_same_text (c ∷ s) (d ∷ t) h = ground (arith, eq_of_same_text s t)

pub le_text_antisymm : (s t : List ℕ) → le_text s t ≡ true → le_text t s ≡ true → s ≡ t
le_text_antisymm [] [] h k = refl
le_text_antisymm [] (d ∷ t) h k = cc
le_text_antisymm (c ∷ s) [] h k = cc
le_text_antisymm (c ∷ s) (d ∷ t) h k = ground (arith, le_text_antisymm s t)

pub le_text_total : (s t : List ℕ) → le_text s t ≡ false → le_text t s ≡ true
le_text_total [] t h = cc
le_text_total (c ∷ s) [] h = refl
le_text_total (c ∷ s) (d ∷ t) h = ground (arith, le_text_total s t)
