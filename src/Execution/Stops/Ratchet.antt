-- ===== src/Execution/Stops/Ratchet.antt =====
-- The stop that the policy of src/execution/stops.py proposes, against the current one.
use forex_ea.Prelude.{◌≡◌, refl, false, Option, none, some, arith, ◌⊎◌, inl, inr, Bool-cases}
use forex_ea.Float.{Float, IsOrdered, IsNumber, ◌≼◌, ◌≺◌}
use forex_ea.Execution.{Order, SignalType}
use forex_ea.Execution.Stops.{
  StopPolicy, target_stop, proposed_stop, proposed_from, ratchet, gain, initial_stop, trail_level,
}

module _ {F : Type 0} ⦃f : Float F⦄ where
  open f use {le, sub, abs, nought, add, lit}

  -- `new` protects a position of this side at least as well as `old`, and better.
  abbrev pub IsTighter : SignalType → F → F → Type 0
  IsTighter SignalType.buy old new = old ≼ new
  IsTighter _ old new = new ≼ old

  abbrev pub IsStrictlyTighter : SignalType → F → F → Type 0
  IsStrictlyTighter SignalType.buy old new = old ≺ new
  IsStrictlyTighter _ old new = new ≺ old

  ratchet-tighter :
      (side : SignalType) (o : Order F) (target : Option F) {sl : F}
      → o.side ≡ side
      → ratchet o target ≡ some sl
      → IsStrictlyTighter side o.stop_loss sl
  unfolding ratchet
  ratchet-tighter SignalType.buy o (some t) s e = ground arith
  ratchet-tighter SignalType.sell o (some t) s e = ground arith
  ratchet-tighter SignalType.hold o (some t) s e = ground arith
  ratchet-tighter SignalType.close o (some t) s e = ground arith
  ratchet-tighter side o none s e = cc

  proposed_from-tighter :
      (pol : StopPolicy F) (o : Order F) (risk : F) (peak : Option F) {sl : F}
      → proposed_from pol o risk peak ≡ some sl
      → IsStrictlyTighter o.side o.stop_loss sl
  unfolding proposed_from
  proposed_from-tighter pol o risk none e = cc
  proposed_from-tighter pol o risk (some peak) e = ratchet-tighter o.side o _ refl e

  pub proposed_stop-tighter :
      (pol : StopPolicy F) (o : Order F) {sl : F}
      → proposed_stop pol o ≡ some sl
      → IsStrictlyTighter o.side o.stop_loss sl
  unfolding proposed_stop
  proposed_stop-tighter pol o e =
      elim (Bool-cases (le (abs (sub o.entry_price (initial_stop o))) nought)) [
        | inl small ↦ absurd (ground arith)
        | inr wide ↦ proposed_from-tighter pol o _ o.extra.peak_price (rw wide at e)
      ]

  pub IsTighter-refl : (side : SignalType) (x : F) → IsNumber x → IsTighter side x x
  IsTighter-refl SignalType.buy x n = n
  IsTighter-refl SignalType.sell x n = n
  IsTighter-refl SignalType.hold x n = n
  IsTighter-refl SignalType.close x n = n

  -- The stop of the order after an accepted proposal.
  abbrev pub proposed_or : F → Option F → F
  proposed_or old none = old
  proposed_or old (some new_sl) = new_sl

  module _ (laws : IsOrdered F) where
    open laws use {le_trans, le_of_not_lt, numbers_of_le}

    pub IsTighter-trans :
        (side : SignalType) (x y z : F)
        → IsTighter side x y
        → IsTighter side y z
        → IsTighter side x z
    IsTighter-trans SignalType.buy x y z h k = le_trans x y z h k
    IsTighter-trans SignalType.sell x y z h k = le_trans z y x k h
    IsTighter-trans SignalType.hold x y z h k = le_trans z y x k h
    IsTighter-trans SignalType.close x y z h k = le_trans z y x k h

    pub IsTighter-IsNumber : (side : SignalType) (x y : F) → IsTighter side x y → IsNumber y
    IsTighter-IsNumber SignalType.buy x y h = (numbers_of_le x y h).1
    IsTighter-IsNumber SignalType.sell x y h = (numbers_of_le y x h).0
    IsTighter-IsNumber SignalType.hold x y h = (numbers_of_le y x h).0
    IsTighter-IsNumber SignalType.close x y h = (numbers_of_le y x h).0

    -- What the ratchet leaves is at least as tight as the target.
    ratchet-reaches :
        (side : SignalType) (o : Order F) (t : F)
        → o.side ≡ side
        → (side ≡ SignalType.buy) ⊎ (side ≡ SignalType.sell)
        → IsNumber o.stop_loss
        → IsNumber t
        → IsTighter side t (proposed_or o.stop_loss (ratchet o (some t)))
    unfolding ratchet
    ratchet-reaches SignalType.buy o t s k n m = ground (arith, le_of_not_lt o.stop_loss t n m)
    ratchet-reaches SignalType.sell o t s k n m = ground (arith, le_of_not_lt t o.stop_loss m n)
    ratchet-reaches SignalType.hold o t s k n m = absurd (ground arith)
    ratchet-reaches SignalType.close o t s k n m = absurd (ground arith)

    -- The target is the trailing level, or else the entry, once the gain reached breakeven.
    target_stop-cases :
        (o : Order F) (peak risk gain_r : F) (pol : StopPolicy F)
        → pol.breakeven_trigger_r ≼ add gain_r (lit 1 9)
        → (target_stop o peak risk gain_r pol ≡ some o.entry_price)
          ⊎ ((pol.trail_start_r ≼ add gain_r (lit 1 9))
              × (target_stop o peak risk gain_r pol ≡ some (trail_level o peak risk pol)))
    unfolding target_stop
    target_stop-cases o peak risk gain_r pol h =
        elim (Bool-cases (le pol.trail_start_r (add gain_r (lit 1 9)))) [
          | inl started ↦ inr (started, rw started)
          | inr not_yet ↦ inl (rw (not_yet, h))
        ]

    -- Once the gain reached breakeven, the proposal leaves a stop that is no worse than the entry.
    pub proposed_stop-protects :
        (pol : StopPolicy F) (o : Order F) (peak : F)
        → (o.side ≡ SignalType.buy) ⊎ (o.side ≡ SignalType.sell)
        → IsNumber o.stop_loss
        → IsNumber o.entry_price
        → o.extra.peak_price ≡ some peak
        → let risk = abs (sub o.entry_price (initial_stop o)) in
          le risk nought ≡ false
          → pol.breakeven_trigger_r ≼ add (gain o peak risk) (lit 1 9)
          → (pol.trail_start_r ≼ add (gain o peak risk) (lit 1 9)
              → IsTighter o.side o.entry_price (trail_level o peak risk pol))
          → IsTighter o.side o.entry_price (proposed_or o.stop_loss (proposed_stop pol o))
    unfolding proposed_stop proposed_from
    proposed_stop-protects pol o peak traded n m e wide reached trails =
        let risk = abs (sub o.entry_price (initial_stop o)) in
        rw (wide, e)
          (elim (target_stop-cases o peak risk (gain o peak risk) pol reached) [
            | inl even ↦ rw even (ratchet-reaches o.side o o.entry_price refl traded n m)
            | inr (started, level) ↦ rw level (
                let good = trails started in
                let at_least =
                  ratchet-reaches o.side o (trail_level o peak risk pol) refl traded n
                    (IsTighter-IsNumber o.side _ _ good) in
                IsTighter-trans o.side _ _ _ good at_least)
          ])
