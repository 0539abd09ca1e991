-- ===== src/Correlation/Monotone.antt =====
-- More open positions never help a candidate: src/correlation/throttle.py.
use forex_ea.Prelude.{
  ◌≡◌, refl, false, List, [], ◌∷◌, ◌++◌, String, arith, foldl, inl, inr, Bool-cases, All,
}
use forex_ea.Float.{Float, IsOrdered, IsNumber, ◌≼◌, ◌≺◌}
use forex_ea.Execution.{SignalType}
use forex_ea.Correlation.{OpenPosition, ThrottlePolicy, PairTable, contributions, heat, decide}

-- Rounded addition of numbers that are not negative, as in IEEE 754.
pub record IsMonotone (F : Type 0) ⦃f : Float F⦄ : Type 0 where
  pub nought_number : IsNumber f.nought
  pub le-add : (x y : F) → f.nought ≼ x → f.nought ≼ y → x ≼ f.add x y
  pub add_mono : (x y z : F) → f.nought ≼ x → f.nought ≼ z → x ≼ y → f.add x z ≼ f.add y z

module _ {F : Type 0} ⦃f : Float F⦄ where
  open f use {nought, add, lt}

  abbrev Positive : String × F → Type 0
  Positive c = nought ≺ c.1

  contributions-append :
      (pol : ThrottlePolicy F) (store : PairTable F) (candidate : String) (side : SignalType)
      (ps qs : List (OpenPosition F))
      → contributions pol store candidate side (ps ++ qs)
        ≡ contributions pol store candidate side ps ++ contributions pol store candidate side qs
  unfolding contributions
  contributions-append pol store candidate side [] qs = refl
  contributions-append pol store candidate side (p ∷ ps) qs =
      ground (arith, contributions-append pol store candidate side ps qs)

  -- Only positions that add heat count: a hedge neither counts nor compensates.
  contributions-Positive :
      (pol : ThrottlePolicy F) (store : PairTable F) (candidate : String) (side : SignalType)
      (ps : List (OpenPosition F))
      → All Positive (contributions pol store candidate side ps)
  unfolding contributions
  contributions-Positive pol store candidate side [] = tt
  contributions-Positive pol store candidate side (p ∷ ps) =
      ground (arith, contributions-Positive pol store candidate side ps)

  heat-append :
      (s : F) (cs ds : List (String × F))
      → foldl (λ s (c : String × F). add s c.1) s (cs ++ ds)
        ≡ foldl (λ s (c : String × F). add s c.1) (foldl (λ s (c : String × F). add s c.1) s cs) ds
  heat-append s [] ds = refl
  heat-append s (c ∷ cs) ds = heat-append (add s c.1) cs ds

  module _ (laws : IsOrdered F) (mono : IsMonotone F) where
    open laws use {le_of_lt, le_trans, lt_of_lt_of_le}
    open mono use {nought_number, le-add, add_mono}

    le-heat :
        (s : F) (cs : List (String × F))
        → nought ≼ s
        → IsNumber s
        → All Positive cs
        → (s ≼ foldl (λ s (c : String × F). add s c.1) s cs)
          × (nought ≼ foldl (λ s (c : String × F). add s c.1) s cs)
    le-heat s [] n m p = (m, n)
    le-heat s (c ∷ cs) n m (p, ps) =
        let up = le-add s c.1 n (le_of_lt _ _ p) in
        let n' = le_trans _ _ _ n up in
        let (rest, pos) = le-heat (add s c.1) cs n' (laws.numbers_of_le _ _ up).1 ps in
        (le_trans _ _ _ up rest, pos)

    heat-append-le :
        (cs ds : List (String × F))
        → All Positive cs
        → All Positive ds
        → (nought ≼ heat cs) × (heat cs ≼ heat (cs ++ ds))
    heat-append-le cs ds ps qs =
        let base = le-heat nought cs nought_number nought_number ps in
        let num = (laws.numbers_of_le _ _ base.1).1 in
        let more = le-heat (heat cs) ds base.1 num qs in
        (base.1, rw (heat-append nought cs ds) more.0)

    -- A candidate whose risk is not negative, and that is refused with some open positions, is refused
    -- with any further ones as well.
    pub refused_with_more :
        (pol : ThrottlePolicy F) (store : PairTable F) (candidate : String) (side : SignalType)
        (risk : F) (ps qs : List (OpenPosition F))
        → nought ≼ risk
        → (decide pol store candidate side risk ps).approved ≡ false
        → (decide pol store candidate side risk (ps ++ qs)).approved ≡ false
    unfolding decide
    refused_with_more pol store candidate side risk [] qs r h = absurd (ground arith)
    refused_with_more pol store candidate side risk (p ∷ ps) qs r h =
        let cs = contributions pol store candidate side (p ∷ ps) in
        let ds = contributions pol store candidate side qs in
        let less =
          heat-append-le cs ds (contributions-Positive pol store candidate side (p ∷ ps))
            (contributions-Positive pol store candidate side qs) in
        let projected = add_mono (heat cs) (heat (cs ++ ds)) risk less.0 r less.1 in
        elim (Bool-cases pol.enabled) [
          | inl on ↦ elim (Bool-cases (lt pol.max_correlated_heat_pct (add (heat cs) risk))) [
            | inl over ↦
                let still = lt_of_lt_of_le _ _ _ over projected in
                rw (contributions-append pol store candidate side (p ∷ ps) qs) (ground arith)
            | inr under ↦ absurd (ground arith)
          ]
          | inr off ↦ absurd (ground arith)
        ]
