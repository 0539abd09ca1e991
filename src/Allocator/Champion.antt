-- ===== src/Allocator/Champion.antt =====
-- How many variants of a symbol trade at the champion's weight: src/allocator/allocator.py.
use forex_ea.Prelude.{
  ℕ, suc, ◌+◌, ◌≤◌, ◌<◌, ◌≡◌, ◌⊎◌, refl, sym, ap, subst, Bool, true, false, List, [], ◌∷◌, ◌++◌,
  String, arith, not, nat_beq, nat_beq_iff, select, map, length, if◌then◌else◌, Bool-cases, inl,
  inr, All, All-append,
}
use forex_ea.Float.{Float, IsOrdered, IsNumber, ◌≼◌}
use forex_ea.Allocator.{
  AllocatorPolicy, StrategyScore, Allocation, Role, best_from, crown, allocate_eligible,
  allocate_symbol, is_eligible, cold_row, probe_row, ranked,
}

abbrev pub is_champion : Role → Bool
is_champion Role.champion = true
is_champion _ = false

module _ {F : Type 0} ⦃f : Float F⦄ where
  open f use {lt}

  -- The number of champions among the rows.
  abbrev pub champions : List (Allocation F) → ℕ
  champions rows = length (select (λ (a : Allocation F). is_champion a.role) rows)

  best_from-bound :
      (i : ℕ) (best : ℕ × StrategyScore F) (ss : List (StrategyScore F))
      → best.0 < i
      → (best_from i best ss).0 < i + length ss
  unfolding best_from
  best_from-bound i best [] h = omega arith
  best_from-bound i best (s ∷ ss) h = ground (
    arith,
    best_from-bound (suc i) (i, s) ss (omega arith),
    best_from-bound (suc i) best ss (omega arith),
  )

  champions-append :
      (xs ys : List (Allocation F)) → champions (xs ++ ys) ≡ champions xs + champions ys
  champions-append [] ys = omega arith
  champions-append (x ∷ xs) ys = ground (arith, champions-append xs ys)

  champions-cold :
      (p : AllocatorPolicy F) (now : ℕ) (ss : List (StrategyScore F))
      → champions (map (cold_row p now) ss) ≡ 0
  champions-cold p now [] = refl
  champions-cold p now (s ∷ ss) = champions-cold p now ss

  champions-probe :
      (p : AllocatorPolicy F) (now : ℕ) (ss : List (StrategyScore F))
      → champions (map (probe_row p now) ss) ≡ 0
  champions-probe p now [] = refl
  champions-probe p now (s ∷ ss) = champions-probe p now ss

  ranked_lower :
      (p : AllocatorPolicy F) (now : ℕ) (best s : StrategyScore F)
      → is_champion (ranked p now best s).role ≡ false
  ranked_lower p now best s = ground arith

  champions-crown :
      (p : AllocatorPolicy F) (now n : ℕ) (symbol : String) (j : ℕ) (best : StrategyScore F) (i : ℕ)
      (ss : List (StrategyScore F))
      → (j < i → champions (crown p now n symbol j best i ss) ≡ 0)
        × (i ≤ j → j < i + length ss → champions (crown p now n symbol j best i ss) ≡ 1)
  unfolding crown
  champions-crown p now n symbol j best i [] = (λ h. refl, λ h k. absurd (omega arith))
  champions-crown p now n symbol j best i (s ∷ ss) =
      let (past, ahead) = champions-crown p now n symbol j best (suc i) ss in
      elim (Bool-cases (nat_beq i j)) [
        | inl here ↦
            let same = (nat_beq_iff i j).0 here in
            (λ h. absurd (omega arith), λ h k. rw here (omega (arith, past (omega arith))))
        | inr there ↦ (
          λ h. rw (there, ranked_lower p now best s) (past (omega arith)),
          λ h k.
              rw (there, ranked_lower p now best s)
                (ahead (ground (arith, nat_beq_iff i j)) (omega arith)),
        )
      ]

  -- The best of the eligible scores, if there is one.
  abbrev pub best_of_all : List (StrategyScore F) → List (StrategyScore F)
  best_of_all [] = []
  best_of_all (s ∷ ss) = (best_from 1 (0, s) ss).1 ∷ []

  -- One champion where the best of the eligible scores is not below the floor, and none otherwise.
  abbrev pub crowned : AllocatorPolicy F → List (StrategyScore F) → ℕ
  crowned p [] = 0
  crowned p (best ∷ _) = if lt best.avg_r p.floor_avg_r then 0 else 1

  -- The score at the position of the best is the best.
  abbrev Agrees : ℕ → StrategyScore F → ℕ → List (StrategyScore F) → Type 0
  Agrees j best i [] = Unit
  Agrees j best i (s ∷ ss) = (i ≡ j → s ≡ best) × Agrees j best (suc i) ss

  abbrev Agree : ℕ × StrategyScore F → ℕ → List (StrategyScore F) → ℕ × StrategyScore F → Type 0
  Agree start i ss r =
      Agrees r.0 r.1 i ss × (r.0 ≡ start.0 → r.1 ≡ start.1) × ((r.0 ≡ start.0) ⊎ (i ≤ r.0))

  best_from-Agree :
      (i : ℕ) (best : ℕ × StrategyScore F) (ss : List (StrategyScore F))
      → best.0 < i
      → Agree best i ss (best_from i best ss)
  unfolding best_from
  best_from-Agree i best [] h = (tt, λ e. refl, inl refl)
  best_from-Agree i best (s ∷ ss) h = elim (Bool-cases (lt best.1.avg_r s.avg_r)) [
    | inl above ↦
        let (rest, own, place) = best_from-Agree (suc i) (i, s) ss (omega arith) in
        let late : i ≤ (best_from (suc i) (i, s) ss).0 = elim place [
          | inl e ↦ omega arith
          | inr k ↦ omega arith
        ] in
        let same : best_from i best (s ∷ ss) ≡ best_from (suc i) (i, s) ss = rw above refl in
        subst (Agree best i (s ∷ ss)) (sym same)
          ((λ e. sym (own (sym e)), rest), λ e. absurd (omega arith), inr late)
    | inr below ↦
        let (rest, own, place) = best_from-Agree (suc i) best ss (omega arith) in
        let same : best_from i best (s ∷ ss) ≡ best_from (suc i) best ss = rw below refl in
        subst (Agree best i (s ∷ ss)) (sym same) (elim place [
          | inl e ↦ ((λ k. absurd (omega arith), rest), own, inl e)
          | inr k ↦ ((λ e. absurd (omega arith), rest), own, inr (omega arith))
        ])
  ]

  -- A champion is the row of the best score, at the champion's weight.
  abbrev pub IsCrown : AllocatorPolicy F → List (StrategyScore F) → Allocation F → Type 0
  IsCrown p best a =
      is_champion a.role ≡ true
      → All
          (λ (b : StrategyScore F).
            (a.strategy ≡ b.strategy) × (a.avg_r ≡ b.avg_r) × (a.weight ≡ p.champion_weight))
          best

  crown-IsCrown :
      (p : AllocatorPolicy F) (now n : ℕ) (symbol : String) (j : ℕ) (best : StrategyScore F) (i : ℕ)
      (ss : List (StrategyScore F))
      → Agrees j best i ss
      → All (IsCrown p (best ∷ [])) (crown p now n symbol j best i ss)
  unfolding crown
  crown-IsCrown p now n symbol j best i [] h = tt
  crown-IsCrown p now n symbol j best i (s ∷ ss) (here, rest) =
      let all = crown-IsCrown p now n symbol j best (suc i) ss rest in
      elim (Bool-cases (nat_beq i j)) [
        | inl same ↦
            let e = here ((nat_beq_iff i j).0 same) in
            rw same (
              λ h. (
                (
                  ap (λ (t : StrategyScore F). t.strategy) e,
                  ap (λ (t : StrategyScore F). t.avg_r) e,
                  refl,
                ),
                tt,
              ),
              all,
            )
        | inr other ↦ rw other (λ h. cc (h, ranked_lower p now best s), all)
      ]

  lower-IsCrown :
      (p : AllocatorPolicy F) (best : List (StrategyScore F)) (row : StrategyScore F → Allocation F)
      (ss : List (StrategyScore F))
      → ((s : StrategyScore F) → is_champion (row s).role ≡ false)
      → All (IsCrown p best) (map row ss)
  lower-IsCrown p best row [] h = tt
  lower-IsCrown p best row (s ∷ ss) h = (λ k. cc (k, h s), lower-IsCrown p best row ss h)

  eligible-IsCrown :
      (p : AllocatorPolicy F) (now : ℕ) (symbol : String) (ss : List (StrategyScore F))
      → All (IsCrown p (best_of_all ss)) (allocate_eligible p now symbol ss)
  unfolding allocate_eligible
  eligible-IsCrown p now symbol [] = tt
  eligible-IsCrown p now symbol (s ∷ ss) =
      let (j, best) = best_from 1 (0, s) ss in
      let (rest, own, place) = best_from-Agree 1 (0, s) ss (omega arith) in
      elim (Bool-cases (lt best.avg_r p.floor_avg_r)) [
        | inl low ↦ rw low (lower-IsCrown p (best ∷ []) (probe_row p now) (s ∷ ss) (λ t. refl))
        | inr fair ↦ rw fair (
            crown-IsCrown p now (length (s ∷ ss)) symbol j best 0 (s ∷ ss)
              (λ e. sym (own (sym e)), rest))
      ]

  champions-eligible :
      (p : AllocatorPolicy F) (now : ℕ) (symbol : String) (ss : List (StrategyScore F))
      → champions (allocate_eligible p now symbol ss) ≡ crowned p (best_of_all ss)
  unfolding allocate_eligible
  champions-eligible p now symbol [] = refl
  champions-eligible p now symbol (s ∷ ss) =
      let (j, best) = best_from 1 (0, s) ss in
      elim (Bool-cases (lt best.avg_r p.floor_avg_r)) [
        | inl low ↦ rw low (champions-probe p now ss)
        | inr fair ↦ rw fair (
            (champions-crown p now (length (s ∷ ss)) symbol j best 0 (s ∷ ss)).1 (omega arith)
              (omega (arith, best_from-bound 1 (0, s) ss (omega arith))))
      ]

  module _ (laws : IsOrdered F) where
    -- No score of the list is above the result, nor is the one that it began with.
    abbrev IsGreatest : StrategyScore F → List (StrategyScore F) → ℕ × StrategyScore F → Type 0
    IsGreatest best ss r =
        (best.avg_r ≼ r.1.avg_r) × All (λ (s : StrategyScore F). s.avg_r ≼ r.1.avg_r) ss

    best_from-IsGreatest :
        (i : ℕ) (best : ℕ × StrategyScore F) (ss : List (StrategyScore F))
        → IsNumber best.1.avg_r
        → All (λ (s : StrategyScore F). IsNumber s.avg_r) ss
        → IsGreatest best.1 ss (best_from i best ss)
    unfolding best_from
    best_from-IsGreatest i best [] n ns = (n, tt)
    best_from-IsGreatest i best (s ∷ ss) n (m, ms) = elim (Bool-cases (lt best.1.avg_r s.avg_r)) [
      | inl above ↦
          let (up, all) = best_from-IsGreatest (suc i) (i, s) ss m ms in
          let same : best_from i best (s ∷ ss) ≡ best_from (suc i) (i, s) ss = rw above refl in
          subst (IsGreatest best.1 (s ∷ ss)) (sym same)
            (laws.le_trans _ _ _ (laws.le_of_lt _ _ above) up, (up, all))
      | inr below ↦
          let (up, all) = best_from-IsGreatest (suc i) best ss n ms in
          let same : best_from i best (s ∷ ss) ≡ best_from (suc i) best ss = rw below refl in
          subst (IsGreatest best.1 (s ∷ ss)) (sym same)
            (up, (laws.le_trans _ _ _ (laws.le_of_not_lt _ _ n m below) up, all))
    ]

    greatest :
        (ss : List (StrategyScore F))
        → All (λ (s : StrategyScore F). IsNumber s.avg_r) ss
        → All
            (λ (b : StrategyScore F). All (λ (s : StrategyScore F). s.avg_r ≼ b.avg_r) ss)
            (best_of_all ss)
    greatest [] n = tt
    greatest (s ∷ ss) (m, ms) =
        let (up, all) = best_from-IsGreatest 1 (0, s) ss m ms in ((up, all), tt)

    -- If no score is NaN, a symbol has exactly one champion, or none where no variant has enough samples
    -- or the best of those that have is below the floor; a champion is the row of that best, with its
    -- strategy, its score and the champion's weight; and no eligible variant is above that best.
    pub allocate_symbol-crowned :
        (p : AllocatorPolicy F) (now : ℕ) (symbol : String) (group : List (StrategyScore F))
        → All (λ (s : StrategyScore F). IsNumber s.avg_r) (select (is_eligible p) group)
        → let best = best_of_all (select (is_eligible p) group) in
          (champions (allocate_symbol p now symbol group) ≡ crowned p best)
          × All (IsCrown p best) (allocate_symbol p now symbol group)
          × All
              (λ (b : StrategyScore F).
                All (λ (s : StrategyScore F). s.avg_r ≼ b.avg_r) (select (is_eligible p) group))
              best
    unfolding allocate_symbol
    allocate_symbol-crowned p now symbol group n = (
      omega (
        arith,
        champions-append (map (cold_row p now) (select (λ s. not (is_eligible p s)) group))
            (allocate_eligible p now symbol (select (is_eligible p) group)),
        champions-cold p now (select (λ s. not (is_eligible p s)) group),
        champions-eligible p now symbol (select (is_eligible p) group),
      ),
      All-append _ _ _
          (lower-IsCrown p _ (cold_row p now) (select (λ s. not (is_eligible p s)) group)
            (λ t. refl))
          (eligible-IsCrown p now symbol (select (is_eligible p) group)),
      greatest (select (is_eligible p) group) n,
    )
