-- ===== src/Bot/Tick.antt =====
-- The bot's loop: `tick` and `run_forever` of src/bot.py. Left out are the refreshes of the broker's status
-- and of the pending orders, the digests and the warnings of blackouts, which write none of this state.
pub mod Halt
use forex_ea.Prelude.{
  ℕ, suc, ◌+◌, ◌-◌, Bool, true, false, Option, none, some, List, [], ◌∷◌, String, foldl, map, ◌++◌,
  ltb, nat_beq, not, ◌&&◌, ◌||◌, is_empty, if◌then◌else◌,
}
use forex_ea.Table.{Table, lookup, upsert, ◌==◌, string_eq, pair_eq}
use forex_ea.Result.{Result, ok, err, Raised}
use forex_ea.Float.{Float}
use forex_ea.Execution.{Order, Bar, Signal, SignalType, is_buy, is_sell}
use forex_ea.Execution.Stops.{StopPolicy, update_peak, proposed_stop}
use forex_ea.Allocator.{AllocatorPolicy, Allocation}
use forex_ea.Allocator.Refresh.{maybe_refresh_allocator}
use forex_ea.Correlation.{upsert_pair}
use forex_ea.Risk.Sizing.{Pips}
use forex_ea.Risk.Manager.{RiskManager}
use forex_ea.PropFirm.{PropFirmPolicy, Store, observe}
use forex_ea.Journal.{record_modify}
use forex_ea.Controls.KillSwitch.{KillTable, is_active}
use forex_ea.Controls.BotControl.{BotControlTable, should_run}
use forex_ea.Controls.Toggles.{ToggleTable, is_enabled}
use forex_ea.Watchdog.{Heartbeat, write_heartbeat}
use forex_ea.Bot.{Bot, Executor, Clock, Gate, is_due}
use forex_ea.Bot.Alerts.{send_setup_alert}
use forex_ea.Bot.Closing.{watch_order, ticket_of}
use forex_ea.Bot.Opening.{handle_signal}
use forex_ea.Bot.Reconcile.{Positions, reconcile_journal, seed_risk_state}
use forex_ea.Bot.Rounds.{Strategy, Setup, Round, Loop, is_killed, is_paused}
use forex_ea.Bot.Managing.{
  manage_orders, observe_balance, maybe_refresh_correlations, refresh_allocations, maybe_reconcile,
}

abbrev in_list : String → List String → Bool
in_list s [] = false
in_list s (t ∷ ts) = t == s || in_list s ts

-- `_regime_allows`; no snapshot lets every strategy pass.
pub regime_allows : List String → Option String → Bool
regime_allows prefs none = true
regime_allows prefs (some trend) = is_empty prefs || trend == "unknown" || in_list trend prefs

module _ {F : Type 0} ⦃f : Float F⦄ {B E : Type 0} (cfg : Setup F B E) where
  abbrev pub beat : ℕ → Option String → Loop F E → Loop F E
  beat now last_error s = elim s.heartbeats [
    | none ↦ s
    | some table ↦ record s {
      heartbeats = some (
          write_heartbeat cfg.process_name
            (record {
              last_tick_at = now;
              tick_count = s.tick_count;
              pid = none;
              last_error = last_error;
            })
            table);
    }
  ]

  abbrev is_off : Option ToggleTable → String → Bool
  is_off none name = false
  is_off (some table) name = not (is_enabled name table)

  abbrev passes : Option (Signal F → B → String → Bool) → Signal F → B → String → Bool
  passes none sig bars name = true
  passes (some should_take) sig bars name = should_take sig bars name

  abbrev on_signal :
      Round F B → B → Option String → String → Result (Signal F) → Bot F E → Result Bool × Bot F E
  on_signal r bars trend name (err raised) b = (err raised, b)
  on_signal r bars trend name (ok sig) b =
      let clk = r.signal_clock name sig.symbol in
      if not (is_buy sig.type || is_sell sig.type)
      then (ok false, b)
      else if passes cfg.signal_filter sig bars name
      then handle_signal cfg.executor cfg.pips clk name trend sig b
      else (ok false, send_setup_alert name sig.symbol sig.type Gate.ml_filter clk.alerted_at b)

  -- The body of the loop over the strategies of a symbol.
  abbrev ask : Round F B → B → Option String → Strategy F B → Bot F E → Result Bool × Bot F E
  ask r bars trend strategy b =
      if is_off b.toggle_store strategy.name || not (regime_allows strategy.preferred_regimes trend)
      then (ok false, b)
      else on_signal r bars trend strategy.name (strategy.generate_signal bars) b

  abbrev tally : ℕ → Result Bool × Bot F E → Result ℕ × Bot F E
  tally acted (err raised, b) = (err raised, b)
  tally acted (ok true, b) = (ok (suc acted), b)
  tally acted (ok false, b) = (ok acted, b)

  -- An exception ends the tick.
  abbrev ask_next :
      Round F B → B → Option String → Result ℕ × Bot F E → Strategy F B → Result ℕ × Bot F E
  ask_next r bars trend (err raised, b) strategy = (err raised, b)
  ask_next r bars trend (ok acted, b) strategy = tally acted (ask r bars trend strategy b)

  abbrev trend_at : Option (B → String) → B → Option String
  trend_at none bars = none
  trend_at (some classify) bars = some (classify bars)

  abbrev same_bar : Option ℕ → ℕ → Bool
  same_bar none ts = false
  same_bar (some last) ts = nat_beq last ts

  abbrev on_bars :
      Round F B → String → List (Strategy F B) → ℕ → Option B → Loop F E → Result ℕ × Loop F E
  on_bars r symbol strategies acted none s = (ok acted, s)
  on_bars r symbol strategies acted (some bars) s =
      let key : String × String = (symbol, cfg.timeframe) in
      let ts = cfg.last_ts bars in
      if is_empty strategies || ltb (cfg.count_of bars) 10 || same_bar (lookup key s.last_bar_ts) ts
      then (ok acted, s)
      else let (result, b) =
          foldl (ask_next r bars (trend_at cfg.trend_of bars)) (ok acted, s.bot) strategies in
        (result, record s { last_bar_ts = upsert key ts s.last_bar_ts; bot = b })

  abbrev scan_next :
      Round F B → Result ℕ × Loop F E → String × List (Strategy F B) → Result ℕ × Loop F E
  scan_next r (err raised, s) (symbol, strategies) = (err raised, s)
  scan_next r (ok acted, s) (symbol, strategies) =
      on_bars r symbol strategies acted (r.latest_bars symbol) s

  pub scan_symbols : Round F B → Loop F E → Result ℕ × Loop F E
  scan_symbols r s = foldl (scan_next r) (ok 0, s) cfg.strategies

  -- The heartbeat at the end of a tick that does not raise.
  abbrev closing_beat : ℕ → Result ℕ × Loop F E → Result ℕ × Loop F E
  closing_beat now (err raised, s) = (err raised, s)
  closing_beat now (ok acted, s) = (ok acted, beat now none s)

  abbrev work_after : Round F B → Loop F E → Result ℕ × Bot F E → Result ℕ × Loop F E
  work_after r s (err raised, b) = (err raised, record s { bot = b })
  work_after r s (ok n, b) =
      let observed = record s { bot = observe_balance cfg r b } in
      let refreshed = refresh_allocations cfg r (maybe_refresh_correlations cfg r observed) in
      closing_beat r.now (scan_symbols r (maybe_reconcile cfg r refreshed))

  abbrev work : Round F B → Loop F E → Result ℕ × Loop F E
  work r s = work_after r s (manage_orders cfg r s.bot)

  unfoldable pub tick : Round F B → Loop F E → Result ℕ × Loop F E
  unfolding manage_orders observe_balance maybe_refresh_correlations refresh_allocations
      maybe_reconcile scan_symbols
  tick r s =
      let s' = record s { tick_count = suc s.tick_count } in
      if is_killed r.kill_switch
      then (ok 0, record (beat r.now (some "voice killswitch tripped") s') { running = false })
      else work r s'

  -- The exception is logged, and its text written with the heartbeat.
  abbrev survive : ℕ → Result ℕ × Loop F E → Loop F E
  survive now (err raised, s) = beat now (some "unhandled error in tick") s
  survive now (ok acted, s) = s

  -- An iteration of `run_forever`.
  unfoldable pub iterate : Round F B → Loop F E → Loop F E
  unfolding tick
  iterate r s =
      if is_paused r.control
      then beat r.now (some "paused by operator") s
      else survive r.now (tick r s)

  -- `while self.state.running`, for as long as there are rounds.
  abbrev pub loop : List (Round F B) → Loop F E → Loop F E
  loop [] s = s
  loop (r ∷ rounds) s = if s.running then loop rounds (iterate r s) else s

  unfoldable pub run_forever : List (Round F B) → Loop F E → Loop F E
  run_forever rounds s =
      loop rounds (record s { running = true; bot = seed_risk_state cfg.executor cfg.pips s.bot })
