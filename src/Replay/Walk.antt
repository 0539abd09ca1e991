-- ===== src/Replay/Walk.antt =====
-- Where a replayed trade exits: `ReplayEngine._walk` of src/replay/engine.py.
use forex_ea.Prelude.{
  ℕ, suc, ◌+◌, ◌≡◌, refl, ap, ◌⊎◌, inl, inr, Bool, true, false, Option, none, some, List, [], ◌∷◌,
  ◌++◌, arith, length, All, Bool-cases,
}
use forex_ea.Float.{Float}
use forex_ea.Execution.{Bar}
use forex_ea.Replay.{ReplayReason, hits_stop, hits_target, walk, walk_from}

module _ {F : Type 0} ⦃f : Float F⦄ where
  abbrev pub IsUntouched : Bool → F → F → Bar F → Type 0
  IsUntouched buy sl tp b = (hits_stop buy sl b ≡ false) × (hits_target buy tp b ≡ false)

  -- The exit from one bar: at the stop if the bar reaches it, else at the target it reaches.
  abbrev pub IsExit : Bool → F → F → Bar F → F → ReplayReason → Type 0
  IsExit buy sl tp b exit reason =
      ((hits_stop buy sl b ≡ true) × (exit ≡ sl) × (reason ≡ ReplayReason.stop))
      ⊎ ((hits_stop buy sl b ≡ false)
          × (hits_target buy tp b ≡ true)
          × (exit ≡ tp)
          × (reason ≡ ReplayReason.target))

  -- After `i` bars: no bar touches a level and all are walked, or the exit is from the bar walked
  -- last, which is the first that touches one.
  abbrev pub IsFirstExit : ℕ → Bool → F → F → List (Bar F) → Option F × ReplayReason × ℕ → Type 0
  IsFirstExit i buy sl tp bars (none, reason, walked) =
      All (IsUntouched buy sl tp) bars
      × (reason ≡ ReplayReason.open_at_end)
      × (walked ≡ i + length bars)
  IsFirstExit i buy sl tp bars (some exit, reason, walked) =
      (before : List (Bar F)) × (b : Bar F) × (after : List (Bar F)) × (bars ≡ before ++ b ∷ after)
      × All (IsUntouched buy sl tp) before
      × IsExit buy sl tp b exit reason
      × (walked ≡ i + length before + 1)

  one_more :
      (i : ℕ) (buy : Bool) (sl tp : F) (b : Bar F) (bars : List (Bar F))
      (r : Option F × ReplayReason × ℕ)
      → IsUntouched buy sl tp b
      → IsFirstExit (suc i) buy sl tp bars r
      → IsFirstExit i buy sl tp (b ∷ bars) r
  one_more i buy sl tp b bars (none, reason, walked) free (all, why, count) =
      ((free, all), why, omega arith)
  one_more i buy sl tp b bars (some exit, reason, walked) free
        (before, c, after, split, clear, at, count) =
      (b ∷ before, c, after, ap (λ t. b ∷ t) split, (free, clear), at, omega arith)

  walk_from-IsFirstExit :
      (i : ℕ) (buy : Bool) (sl tp : F) (bars : List (Bar F))
      → IsFirstExit i buy sl tp bars (walk_from i buy sl tp bars)
  unfolding walk_from
  walk_from-IsFirstExit i buy sl tp [] = (tt, refl, omega arith)
  walk_from-IsFirstExit i buy sl tp (b ∷ bars) = elim (Bool-cases (hits_stop buy sl b)) [
    | inl stopped ↦ rw stopped ([], b, bars, refl, tt, inl (stopped, refl, refl), omega arith)
    | inr free ↦ elim (Bool-cases (hits_target buy tp b)) [
      | inl reached ↦
          rw (free, reached) ([], b, bars, refl, tt, inr (free, reached, refl, refl), omega arith)
      | inr free' ↦
          rw (free, free')
            (one_more i buy sl tp b bars _ (free, free')
              (walk_from-IsFirstExit (suc i) buy sl tp bars))
    ]
  ]

  -- The walk exits from the first bar of the path that touches a level, at the stop if the bar
  -- touches both, and reports the bars up to that one; without such a bar it reports all of them.
  pub walk-IsFirstExit :
      (buy : Bool) (sl tp : F) (bars : List (Bar F))
      → IsFirstExit 0 buy sl tp bars (walk buy sl tp bars)
  unfolding walk
  walk-IsFirstExit buy sl tp bars = walk_from-IsFirstExit 0 buy sl tp bars
