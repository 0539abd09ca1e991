-- ===== src/Backtest/Agreement.antt =====
-- The exit rule of the simulation (`_check_stop_or_target` of src/backtesting/engine.py) beside those
-- of the bot (`_close_trigger` of src/bot.py) and of the replay (`_walk` of src/replay/engine.py).
use forex_ea.Prelude.{ℕ, ◌≡◌, refl, sym, ap, Option, none, some, [], ◌∷◌, String, arith}
use forex_ea.Float.{Float, ◌≼◌}
use forex_ea.Execution.{Order, Bar, Signal, SignalType, is_buy}
use forex_ea.Execution.Exits.{Trigger, close_trigger}
use forex_ea.Replay.{ReplayReason, walk, walk_from}
use forex_ea.Result.{Result, ok, returned, ok_injective, ◌>>=◌}
use forex_ea.Risk.Sizing.{Pips}
use forex_ea.Backtest.{
  Trade, TradeReason, close, check_stop_or_target, open_from_signal, or_zero, stop_pips,
  signal_lots,
}

-- A trigger as the replay reports it.
abbrev pub replay_reason : Option Trigger → ReplayReason
replay_reason none = ReplayReason.open_at_end
replay_reason (some Trigger.stop) = ReplayReason.stop
replay_reason (some Trigger.target) = ReplayReason.target

module _ {F : Type 0} ⦃f : Float F⦄ where
  open f use {nought, le}

  -- A trigger as the simulation carries it out.
  abbrev pub carried_out : Pips F → Trade F → ℕ → Option Trigger → Result (Option (Trade F))
  carried_out pips t ts none = ok none
  carried_out pips t ts (some Trigger.stop) =
      close pips t t.stop_loss ts TradeReason.stop >>= λ c. ok (some c)
  carried_out pips t ts (some Trigger.target) =
      close pips t t.take_profit ts TradeReason.target >>= λ c. ok (some c)

  -- For an order and a simulated trade of the same side and levels, the bot, the replay and the
  -- simulation take the same decision on a bar: the stop before the target, or none.
  pub exit_rules_agree :
      (pips : Pips F) (o : Order F) (t : Trade F) (bar : Bar F) (ts : ℕ)
      → o.side ≡ t.side
      → o.stop_loss ≡ t.stop_loss
      → o.take_profit ≡ t.take_profit
      → (check_stop_or_target pips t bar ts ≡ carried_out pips t ts (close_trigger o (some bar)))
        × ((walk (is_buy t.side) t.stop_loss t.take_profit (bar ∷ [])).1
            ≡ replay_reason (close_trigger o (some bar)))
  unfolding check_stop_or_target close_trigger walk walk_from
  exit_rules_agree pips o t bar ts side stop target = rw (side, stop, target) (ground arith)

  opened_as :
      (pips : Pips F) (sig : Signal F) (equity risk : F) (symbol : String) (t : Trade F)
      → open_from_signal pips sig equity risk symbol ≡ ok t
      → (t.side ≡ sig.type) × (t.stop_loss ≡ or_zero sig.stop_loss)
  unfolding open_from_signal
  opened_as pips sig equity risk symbol t h =
      let (distance, e, rest) =
        returned (stop_pips pips sig.price (or_zero sig.stop_loss) symbol) _ t h in
      let (lots, e', made) = returned (signal_lots pips equity risk distance symbol) _ t rest in
      let same = ok_injective made in
      (sym (ap (λ (u : Trade F). u.side) same), sym (ap (λ (u : Trade F). u.stop_loss) same))

  -- A SELL signal without a stop, which the simulation opens with the stop 0.0, is closed by the first
  -- bar whose high is not below 0, at the price 0.0.
  stopless_sell_exits_at_zero :
      (pips : Pips F) (sig : Signal F) (equity risk : F) (symbol : String) (t : Trade F)
      (bar : Bar F) (ts : ℕ)
      → open_from_signal pips sig equity risk symbol ≡ ok t
      → sig.type ≡ SignalType.sell
      → sig.stop_loss ≡ none
      → nought ≼ bar.high
      → check_stop_or_target pips t bar ts
        ≡ (close pips t nought ts TradeReason.stop >>= λ c. ok (some c))
  unfolding check_stop_or_target
  stopless_sell_exits_at_zero pips sig equity risk symbol t bar ts opened sells stopless high =
      let (side, level) = opened_as pips sig equity risk symbol t opened in
      rw (side, sells, level, stopless) (rw high refl)
