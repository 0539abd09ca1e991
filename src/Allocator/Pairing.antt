-- ===== src/Allocator/Pairing.antt =====
-- Every scored variant is allocated once: `allocate` of src/allocator/allocator.py.
use forex_ea.Prelude.{
  ℕ, suc, ◌+◌, ◌≡◌, refl, Bool, List, [], ◌∷◌, ◌++◌, String, foldl, map, select, length, not,
  nat_beq, arith, if◌then◌else◌, Bool-cases, inl, inr,
}
use forex_ea.Table.{Table, lookup, upsert, ◌==◌, string_eq, pair_eq}
use forex_ea.Float.{Float}
use forex_ea.Allocator.{
  AllocatorPolicy, StrategyScore, Allocation, allocate_symbol, allocate_eligible, crown, best_from,
  is_eligible, cold_row, probe_row,
}
use forex_ea.Allocator.Refresh.{
  allocate, allocate_groups, into_group, group_of, insert_row, sort_rows, le_key,
}

module _ {F : Type 0} ⦃f : Float F⦄ where
  open f use {lt, le, sub}

  -- How many rows and how many scores are of a variant.
  abbrev pub rows_of : String × String → List (Allocation F) → ℕ
  rows_of key [] = 0
  rows_of key (a ∷ rows) =
      if (a.strategy, a.symbol) == key then suc (rows_of key rows) else rows_of key rows

  abbrev pub scores_of : String × String → List (StrategyScore F) → ℕ
  scores_of key [] = 0
  scores_of key (s ∷ ss) =
      if (s.strategy, s.symbol) == key then suc (scores_of key ss) else scores_of key ss

  module _ (key : String × String) where
    rows_of-append :
        (xs ys : List (Allocation F)) → rows_of key (xs ++ ys) ≡ rows_of key xs + rows_of key ys
    rows_of-append [] ys = omega arith
    rows_of-append (x ∷ xs) ys = ground (arith, rows_of-append xs ys)

    scores_of-append :
        (xs ys : List (StrategyScore F))
        → scores_of key (xs ++ ys) ≡ scores_of key xs + scores_of key ys
    scores_of-append [] ys = omega arith
    scores_of-append (x ∷ xs) ys = ground (arith, scores_of-append xs ys)

    rows_of-insert :
        (a : Allocation F) (rows : List (Allocation F))
        → rows_of key (insert_row a rows) ≡ rows_of key (a ∷ rows)
    rows_of-insert a [] = refl
    rows_of-insert a (b ∷ rows) = elim (Bool-cases (le_key a b)) [
      | inl first ↦ rw first
      | inr later ↦ rw later (ground (arith, rows_of-insert a rows))
    ]

    rows_of-sort : (rows : List (Allocation F)) → rows_of key (sort_rows rows) ≡ rows_of key rows
    rows_of-sort [] = refl
    rows_of-sort (a ∷ rows) = ground (arith, rows_of-insert a (sort_rows rows), rows_of-sort rows)

    rows_of-cold :
        (p : AllocatorPolicy F) (now : ℕ) (ss : List (StrategyScore F))
        → rows_of key (map (cold_row p now) ss) ≡ scores_of key ss
    rows_of-cold p now [] = refl
    rows_of-cold p now (s ∷ ss) = ground (arith, rows_of-cold p now ss)

    rows_of-probe :
        (p : AllocatorPolicy F) (now : ℕ) (ss : List (StrategyScore F))
        → rows_of key (map (probe_row p now) ss) ≡ scores_of key ss
    rows_of-probe p now [] = refl
    rows_of-probe p now (s ∷ ss) = ground (arith, rows_of-probe p now ss)

    rows_of-crown :
        (p : AllocatorPolicy F) (now n : ℕ) (symbol : String) (j : ℕ) (best : StrategyScore F)
        (i : ℕ) (ss : List (StrategyScore F))
        → rows_of key (crown p now n symbol j best i ss) ≡ scores_of key ss
    unfolding crown
    rows_of-crown p now n symbol j best i [] = refl
    rows_of-crown p now n symbol j best i (s ∷ ss) = elim (Bool-cases (nat_beq i j)) [
      | inl champion ↦ rw champion (ground (arith, rows_of-crown p now n symbol j best (suc i) ss))
      | inr other ↦
          rw other (elim (Bool-cases (le (sub best.avg_r s.avg_r) p.challenger_tolerance)) [
            | inl near ↦ rw near (ground (arith, rows_of-crown p now n symbol j best (suc i) ss))
            | inr far ↦ rw far (ground (arith, rows_of-crown p now n symbol j best (suc i) ss))
          ])
    ]

    rows_of-eligible :
        (p : AllocatorPolicy F) (now : ℕ) (symbol : String) (ss : List (StrategyScore F))
        → rows_of key (allocate_eligible p now symbol ss) ≡ scores_of key ss
    unfolding allocate_eligible
    rows_of-eligible p now symbol [] = refl
    rows_of-eligible p now symbol (s ∷ ss) =
        let (j, best) = best_from 1 (0, s) ss in
        elim (Bool-cases (lt best.avg_r p.floor_avg_r)) [
          | inl low ↦ rw low (rows_of-probe p now (s ∷ ss))
          | inr fair ↦ rw fair (rows_of-crown p now (length (s ∷ ss)) symbol j best 0 (s ∷ ss))
        ]

    scores_of-split :
        (q : StrategyScore F → Bool) (ss : List (StrategyScore F))
        → scores_of key (select (λ s. not (q s)) ss) + scores_of key (select q ss)
          ≡ scores_of key ss
    scores_of-split q [] = refl
    scores_of-split q (s ∷ ss) = ground (arith, scores_of-split q ss)

    rows_of-symbol :
        (p : AllocatorPolicy F) (now : ℕ) (symbol : String) (group : List (StrategyScore F))
        → rows_of key (allocate_symbol p now symbol group) ≡ scores_of key group
    unfolding allocate_symbol
    rows_of-symbol p now symbol group = omega (
      arith,
      rows_of-append (map (cold_row p now) (select (λ s. not (is_eligible p s)) group))
          (allocate_eligible p now symbol (select (is_eligible p) group)),
      rows_of-cold p now (select (λ s. not (is_eligible p s)) group),
      rows_of-eligible p now symbol (select (is_eligible p) group),
      scores_of-split (is_eligible p) group,
    )

    abbrev held : Table String (List (StrategyScore F)) → ℕ
    held [] = 0
    held ((symbol, group) ∷ groups) = scores_of key group + held groups

    rows_of-groups :
        (p : AllocatorPolicy F) (now : ℕ) (groups : Table String (List (StrategyScore F)))
        → rows_of key (allocate_groups p now groups) ≡ held groups
    rows_of-groups p now [] = refl
    rows_of-groups p now ((symbol, group) ∷ groups) = omega (
      arith,
      rows_of-append (allocate_symbol p now symbol group) (allocate_groups p now groups),
      rows_of-symbol p now symbol group,
      rows_of-groups p now groups,
    )

    held-upsert :
        (symbol : String) (group : List (StrategyScore F))
        (groups : Table String (List (StrategyScore F)))
        → held (upsert symbol group groups) + scores_of key (group_of (lookup symbol groups))
          ≡ held groups + scores_of key group
    held-upsert symbol group [] = omega arith
    held-upsert symbol group ((other, rest) ∷ groups) = elim (Bool-cases (other == symbol)) [
      | inl same ↦ rw same (omega arith)
      | inr ne ↦ rw ne (omega (arith, held-upsert symbol group groups))
    ]

    held-into_group :
        (groups : Table String (List (StrategyScore F))) (s : StrategyScore F)
        → held (into_group groups s) ≡ held groups + scores_of key (s ∷ [])
    held-into_group groups s = omega (
      arith,
      held-upsert s.symbol (group_of (lookup s.symbol groups) ++ s ∷ []) groups,
      scores_of-append (group_of (lookup s.symbol groups)) (s ∷ []),
    )

    held-foldl :
        (groups : Table String (List (StrategyScore F))) (ss : List (StrategyScore F))
        → held (foldl into_group groups ss) ≡ held groups + scores_of key ss
    held-foldl groups [] = omega arith
    held-foldl groups (s ∷ ss) = omega (
      arith,
      held-foldl (into_group groups s) ss,
      held-into_group groups s,
      scores_of-append (s ∷ []) ss,
    )

  -- Every scored variant is allocated, and once for each of its scores: the rows of `allocate` that
  -- carry a strategy and a symbol are as many as the scores that carry them.
  pub rows_of-allocate :
      (key : String × String) (p : AllocatorPolicy F) (now : ℕ) (scores : List (StrategyScore F))
      → rows_of key (allocate p now scores) ≡ scores_of key scores
  unfolding allocate
  rows_of-allocate key p now scores = omega (
    arith,
    rows_of-sort key (allocate_groups p now (foldl into_group [] scores)),
    rows_of-groups key p now (foldl into_group [] scores),
    held-foldl key [] scores,
  )
