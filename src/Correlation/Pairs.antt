-- ===== src/Correlation/Pairs.antt =====
-- Reads and writes of `CorrelationStore` in src/correlation/store.py.
use Prim.Native.Char.{code}
use Prim.Native.String.{String}
use text.Mathlib.TextEquality.{eq_iff, codes_equal}
use forex_ea.Prelude.{◌≡◌, refl, ◌≢◌, some, arith, inl, inr, Bool-cases}
use forex_ea.Table.{string_eq, pair_eq, lookup-upsert_self}
use forex_ea.Text.{codes, le_text}
use forex_ea.Text.Order.{le_text_antisymm, le_text_total}
use forex_ea.Float.{Float}
use forex_ea.Correlation.{PairTable, pair, upsert_pair, ordered}

codes-injective : (a b : String) → codes a ≡ codes b → a ≡ b
codes-injective String.[] String.[] h = refl
codes-injective String.[] (String.◌∷◌ d t) h = cc
codes-injective (String.◌∷◌ c s) String.[] h = cc
codes-injective (String.◌∷◌ c s) (String.◌∷◌ d t) h =
    let same : code c ≡ code d = cc in
    let rest : codes s ≡ codes t = cc in
    λ i. String.◌∷◌ (codes_equal c d (ground arith) i) (codes-injective s t rest i)

ordered_comm : (a b : String) → ordered a b ≡ ordered b a
ordered_comm a b = elim (Bool-cases (le_text (codes a) (codes b))) [
  | inl up ↦ elim (Bool-cases (le_text (codes b) (codes a))) [
    | inl down ↦ let e = codes-injective a b (le_text_antisymm _ _ up down) in rw (up, down) (cc e)
    | inr down ↦ rw (up, down)
  ]
  | inr up ↦ rw (up, le_text_total _ _ up)
]

module _ {F : Type 0} ⦃f : Float F⦄ where
  -- The correlation of two symbols is read back in both orders after it was written in either.
  pair-upsert_pair :
      (a b : String) (value : F) (store : PairTable F)
      → a ≢ b
      → (pair (upsert_pair a b value store) a b ≡ some value)
        × (pair (upsert_pair a b value store) b a ≡ some value)
  unfolding pair upsert_pair
  pair-upsert_pair a b value store ne =
      let read = lookup-upsert_self (ordered a b) value store in
      (ground (arith, eq_iff a b, read), rw (ordered_comm b a) (ground (arith, eq_iff b a, read)))
