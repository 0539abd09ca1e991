-- ===== src/Tests/Bot.antt =====
-- A bot at the terminal of the other tests: a signal that opens a trade, alerts in a row, and a closing
-- that the broker refuses.
use text.Mathlib.TextEquality.{eq_iff}
use forex_ea.Prelude.{
  ℕ, ◌≡◌, ◌≤◌, refl, ap, inl, true, false, none, some, List, [], ◌∷◌, String, length, map, arith,
}
use forex_ea.Prelude.Int.{ℤ, pos}
use forex_ea.Float.Fixed.{fixed_float}
use forex_ea.Table.{lookup, string_eq, pair_eq, nat_eq}
use forex_ea.Result.{ok}
use forex_ea.Execution.{Order, SignalType, Signal}
use forex_ea.Execution.Exits.{Trigger}
use forex_ea.Journal.{list_open}
use forex_ea.Risk.Manager.{RiskManager, RiskState}
use forex_ea.Bot.{Bot, Executor, Clock, Gate, DedupAnswer}
use forex_ea.Bot.Alerts.Spacing.{
  SetupCall, key_of, alert_times, greedy, attempts_of, IsSpaced, alert_times-IsSpaced,
}
use forex_ea.Bot.Closing.{close_order, watch_order}
use forex_ea.Bot.Closing.Cooldown.{close_order-refused}
use forex_ea.Bot.Opening.{handle_signal}
use forex_ea.Bot.Opening.Once.{Handled, after_signals, handle_signal_once}
use forex_ea.Bot.Reconcile.{Positions, reconcile_journal}
use forex_ea.Bot.Exposure.{IsBookedBot}
use forex_ea.Bot.Exposure.Steps.{BotRun, BotStep, journal_open_bounded}
use forex_ea.Mt5.Closing.{close}
use forex_ea.Mt5.Positions.{mt5_executor}
use forex_ea.Mt5.Broker.{mt5_executor-IsBroker}
use forex_ea.Tests.Execution.{buy_order, bar_of}
use forex_ea.Tests.Risk.{limits}
use forex_ea.Tests.Mt5.{terminal, pips}

abbrev pub live_executor : Executor ℤ ℕ
live_executor = mt5_executor terminal 42 [] pips

abbrev ungated : RiskManager ℤ
ungated = record {
  limits = limits;
  blackout_checker = none;
  portfolio_throttle = none;
  propfirm_guard = none;
}

abbrev calm : RiskState ℤ
calm = record { open_trade_count = 0; open_risk_pct = pos 0; daily_pnl = pos 0; last_reset = none }

abbrev pub bot : Bot ℤ ℕ
bot = record {
  executor = 0;
  risk = ungated;
  risk_state = calm;
  journal = record { trades = []; modifications = [] };
  signal_dedup_store = some [];
  toggle_store = none;
  fill_store = none;
  allocations = [];
  close_retry_after = [];
  last_setup_alert = [];
  last_signal_alert = [];
  notifies = true;
  messages = [];
}

abbrev pub clock : ℕ → Clock ℤ
clock now = record {
  alerted_at = now;
  dedup = DedupAnswer.answers;
  reset_at = now;
  blackout_at = now;
  opened_at = now;
  noted_at = now;
  filled_at = now;
  monotonic = now;
  latency_ms = pos 0;
}

abbrev pub signal : ℤ → Signal ℤ
signal price = record {
  type = SignalType.buy;
  symbol = "EURUSD";
  timestamp = 60;
  price = price;
  stop_loss = some (pos 10_900);
  take_profit = some (pos 11_300);
  reason = "";
}

abbrev pub broker_side : Positions ℤ
broker_side = record {
  live_tickets = [];
  fetch_close = λ ticket. some (record { exit_price = pos 11_300; closed_at = 90; pnl = pos 300 });
}

-- The bot after the signal.
abbrev traded : Bot ℤ ℕ
traded =
    (handle_signal live_executor pips (clock 100) "macd_cross" none (signal (pos 11_000)) bot).1

bot-IsBooked : IsBookedBot bot
unfolding list_open
bot-IsBooked = record { sound = tt; counted = refl; bounded = omega arith }

abbrev run :
    BotRun live_executor pips bot (reconcile_journal live_executor pips (some broker_side) traded)
run =
    BotRun.after
      (BotRun.after BotRun.begin
        (BotStep.handling (clock 100) "macd_cross" none (signal (pos 11_000))))
      (BotStep.reconciling (some broker_side))

journal_open_bounded_example :
    let c = reconcile_journal live_executor pips (some broker_side) traded in
    (c.risk_state.open_trade_count ≡ length (list_open c.journal))
    × (length (list_open c.journal) ≤ c.risk.limits.max_open_trades)
journal_open_bounded_example =
    journal_open_bounded (mt5_executor-IsBroker terminal 42 [] pips) run bot-IsBooked

abbrev of_another : Handled ℤ
of_another = record {
  clk = clock 150;
  name = "ema_pullback";
  regime = none;
  sig = record (signal (pos 11_020)) { timestamp = 90 };
}

handle_signal_once_example :
    let after = after_signals live_executor pips (of_another ∷ []) traded in
    handle_signal live_executor pips (clock 200) "macd_cross" none (signal (pos 11_050)) after
    ≡ (ok false, after)
handle_signal_once_example =
    handle_signal_once live_executor pips (clock 100) (clock 200) "macd_cross" none none
      (signal (pos 11_000)) (signal (pos 11_050)) (of_another ∷ []) [] bot refl (λ e. cc e)
      (λ e. cc e) refl
      (
        inl (λ e.
            cc ((eq_iff "ema_pullback" "macd_cross").1 (ap (λ (k : String × String). k.0) e))),
        tt,
      )
      (λ e. cc e) refl refl

abbrev asked_at : String → ℕ → SetupCall ℤ
asked_at symbol now = record {
  strategy = "macd_cross";
  symbol = symbol;
  side = SignalType.buy;
  gate = Gate.ml_filter;
  now = now;
}

abbrev calls : List (SetupCall ℤ)
calls =
    asked_at "EURUSD" 100_000_000
    ∷ asked_at "GBPUSD" 200_000_000
    ∷ asked_at "EURUSD" 300_000_000
    ∷ asked_at "EURUSD" 4_000_000_000
    ∷ []

alert_times-IsSpaced_example :
    let told = record bot { notifies = true } in
    let key : String × String = ("macd_cross", "EURUSD") in
    (alert_times key calls told
      ≡ greedy 3_600 (lookup key told.last_setup_alert) (attempts_of key (map key_of calls)))
    × IsSpaced 3_600 (lookup key told.last_setup_alert) (alert_times key calls told)
alert_times-IsSpaced_example =
    alert_times-IsSpaced ("macd_cross", "EURUSD") calls (record bot { notifies = true }) refl

-- A terminal that answers no request.
abbrev mute : Executor ℤ ℕ
mute = mt5_executor (record terminal { order_send = λ request t. (none, t) }) 42 [] pips

abbrev ticketed : Order ℤ
ticketed = record buy_order { id = 7; broker_ticket = some 7 }

close_order-refused_example :
    let b' = close_order mute (clock 100) ticketed Trigger.stop bot in
    let since = record b' { messages = [] } in
    (b'.journal ≡ bot.journal)
    × (b'.risk_state ≡ bot.risk_state)
    × (watch_order mute 20_000_000 (clock 200) (some (bar_of 10_800 10_950)) ticketed since ≡ since)
unfolding mt5_executor close
close_order-refused_example =
    close_order-refused mute (clock 100) (clock 200) ticketed ticketed Trigger.stop bot
      (record (close_order mute (clock 100) ticketed Trigger.stop bot) { messages = [] }) 20_000_000
      (some (bar_of 10_800 10_950)) refl refl (omega arith) refl
