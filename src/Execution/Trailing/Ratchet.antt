-- ===== src/Execution/Trailing/Ratchet.antt =====
-- The stop of an open order over a run of ticks: `_apply_trailing` of src/bot.py with the policy of
-- src/execution/stops.py.
use forex_ea.Prelude.{◌≡◌, refl, Option, none, some, Bool, true, false, List, [], ◌∷◌, ◌⊎◌}
use forex_ea.Float.{Float, IsOrdered, IsNumber, ◌≼◌}
use forex_ea.Execution.{Order, Bar, SignalType}
use forex_ea.Execution.Stops.{
  StopPolicy, update_peak, proposed_stop, initial_risk, gain, trail_level,
}
use forex_ea.Execution.Stops.Ratchet.{
  IsTighter, IsStrictlyTighter, IsTighter-refl, IsTighter-trans, IsTighter-IsNumber, proposed_or,
  proposed_stop-tighter, proposed_stop-protects,
}
use forex_ea.Execution.Trailing.{apply_trailing, trail, move_stop}

module _ {F : Type 0} ⦃f : Float F⦄ where
  -- What every tick keeps of an order, and how its stop may move.
  pub record Keeps (o o' : Order F) : Type 0 where
    pub side_kept : o'.side ≡ o.side
    pub entry_kept : o'.entry_price ≡ o.entry_price
    pub target_kept : o'.take_profit ≡ o.take_profit
    pub initial_kept : o'.extra.initial_stop_loss ≡ o.extra.initial_stop_loss
    pub tighter : IsTighter o.side o.stop_loss o'.stop_loss

module _ {F : Type 0} ⦃f : Float F⦄ (laws : IsOrdered F) where
  open laws use {le_of_lt}

  IsTighter-of_strict :
      (side : SignalType) (old new : F) → IsStrictlyTighter side old new → IsTighter side old new
  IsTighter-of_strict SignalType.buy old new h = le_of_lt old new h
  IsTighter-of_strict SignalType.sell old new h = le_of_lt new old h
  IsTighter-of_strict SignalType.hold old new h = le_of_lt new old h
  IsTighter-of_strict SignalType.close old new h = le_of_lt new old h

  move_stop-Keeps :
      (accepted : Bool) (o : Order F) (proposal : Option F)
      → IsNumber o.stop_loss
      → ((sl : F) → proposal ≡ some sl → IsTighter o.side o.stop_loss sl)
      → Keeps o (move_stop accepted o proposal).0
  move_stop-Keeps accepted o none n h = record {
    side_kept = refl;
    entry_kept = refl;
    target_kept = refl;
    initial_kept = refl;
    tighter = IsTighter-refl o.side o.stop_loss n;
  }
  move_stop-Keeps true o (some sl) n h = record {
    side_kept = refl;
    entry_kept = refl;
    target_kept = refl;
    initial_kept = refl;
    tighter = h sl refl;
  }
  move_stop-Keeps false o (some sl) n h = record {
    side_kept = refl;
    entry_kept = refl;
    target_kept = refl;
    initial_kept = refl;
    tighter = IsTighter-refl o.side o.stop_loss n;
  }

  move_stop-proposed_or :
      (o : Order F) (proposal : Option F)
      → (move_stop true o proposal).0.stop_loss ≡ proposed_or o.stop_loss proposal
  move_stop-proposed_or o none = refl
  move_stop-proposed_or o (some sl) = refl

  move_stop-side : (o : Order F) (proposal : Option F) → (move_stop true o proposal).0.side ≡ o.side
  move_stop-side o none = refl
  move_stop-side o (some sl) = refl

  apply_trailing-Keeps :
      (pol : StopPolicy F) (accepted : Bool) (bar : Option (Bar F)) (o : Order F)
      → IsNumber o.stop_loss
      → Keeps o (apply_trailing pol accepted bar o).0
  unfolding apply_trailing update_peak
  apply_trailing-Keeps pol accepted none o n =
      move_stop-Keeps accepted o none n (λ sl e. absurd (cc e))
  apply_trailing-Keeps pol accepted (some last) o n =
      let o' = update_peak o last.high last.low in
      let k =
        move_stop-Keeps accepted o' (proposed_stop pol o') n
          (λ sl e. IsTighter-of_strict o.side o.stop_loss sl (proposed_stop-tighter pol o' e)) in
      record {
        side_kept = k.side_kept;
        entry_kept = k.entry_kept;
        target_kept = k.target_kept;
        initial_kept = k.initial_kept;
        tighter = k.tighter;
      }

  -- Over any run of ticks, whichever of its changes the executor accepts, the stop of an order never
  -- moves away from the price: it only rises for a buy and only falls for a sell. Side, entry, target
  -- and initial stop stay as they are.
  pub trail-Keeps :
      (pol : StopPolicy F) (ticks : List (Option (Bar F) × Bool)) (o : Order F)
      → IsNumber o.stop_loss
      → Keeps o (trail pol ticks o)
  unfolding trail
  trail-Keeps pol [] o n = move_stop-Keeps true o none n (λ sl e. absurd (cc e))
  trail-Keeps pol ((bar, accepted) ∷ ticks) o n =
      let o' = (apply_trailing pol accepted bar o).0 in
      let first = apply_trailing-Keeps pol accepted bar o n in
      let rest = trail-Keeps pol ticks o' (IsTighter-IsNumber laws o.side _ _ first.tighter) in
      record {
        side_kept = cc (first.side_kept, rest.side_kept);
        entry_kept = cc (first.entry_kept, rest.entry_kept);
        target_kept = cc (first.target_kept, rest.target_kept);
        initial_kept = cc (first.initial_kept, rest.initial_kept);
        tighter =
            IsTighter-trans laws o.side o.stop_loss o'.stop_loss _ first.tighter
              (rw first.side_kept at rest.tighter);
      }

  -- If a tick's accepted stop change comes when the gain has reached the breakeven trigger, and the
  -- trailing level, where trailing has started, is no worse than the entry, then the stop is no worse
  -- than the entry after that tick and after every later run of ticks.
  pub breakeven_lock :
      (pol : StopPolicy F) (bar : Bar F) (ticks : List (Option (Bar F) × Bool)) (o : Order F)
      (peak : F)
      → (o.side ≡ SignalType.buy) ⊎ (o.side ≡ SignalType.sell)
      → IsNumber o.stop_loss
      → IsNumber o.entry_price
      → (update_peak o bar.high bar.low).extra.peak_price ≡ some peak
      → f.le (initial_risk o) f.nought ≡ false
      → pol.breakeven_trigger_r ≼ f.add (gain o peak (initial_risk o)) (f.lit 1 9)
      → (pol.trail_start_r ≼ f.add (gain o peak (initial_risk o)) (f.lit 1 9)
          → IsTighter o.side o.entry_price (trail_level o peak (initial_risk o) pol))
      → IsTighter o.side o.entry_price (trail pol ((some bar, true) ∷ ticks) o).stop_loss
  unfolding trail apply_trailing update_peak
  breakeven_lock pol bar ticks o peak traded n m e wide reached trails =
      let o₁ = update_peak o bar.high bar.low in
      let o₂ = (move_stop true o₁ (proposed_stop pol o₁)).0 in
      let safe : IsTighter o.side o.entry_price o₂.stop_loss =
        rw (move_stop-proposed_or o₁ (proposed_stop pol o₁))
          (proposed_stop-protects laws pol o₁ peak traded n m e wide reached trails) in
      let rest = trail-Keeps pol ticks o₂ (IsTighter-IsNumber laws o.side _ _ safe) in
      IsTighter-trans laws o.side _ _ _ safe
        (rw (move_stop-side o₁ (proposed_stop pol o₁)) at rest.tighter)
