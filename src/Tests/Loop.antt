-- ===== src/Tests/Loop.antt =====
-- A loop with one strategy: a round that trades, then one in which the kill switch has been tripped.
use forex_ea.Prelude.{ℕ, refl, false, none, some, [], ◌∷◌, ◌++◌}
use forex_ea.Prelude.Int.{ℤ, pos}
use forex_ea.Float.Fixed.{fixed_float}
use forex_ea.Table.{nat_eq, string_eq}
use forex_ea.Result.{ok}
use forex_ea.Controls.KillSwitch.{KillTable, activate, kill_latch}
use forex_ea.Bot.Rounds.{Strategy, Setup, Round, Loop}
use forex_ea.Bot.Tick.{run_forever}
use forex_ea.Bot.Tick.Halt.{IsHalted, run_forever-IsHalted}
use forex_ea.Tests.Execution.{bar_of}
use forex_ea.Tests.Mt5.{pips}
use forex_ea.Tests.Bot.{live_executor, bot, clock, signal, broker_side}

abbrev always_buy : Strategy ℤ ℕ
always_buy = record {
  name = "macd_cross";
  preferred_regimes = "trend" ∷ [];
  generate_signal = λ bars. ok (signal (pos 11_000));
}

abbrev setup : Setup ℤ ℕ ℕ
setup = record {
  executor = live_executor;
  pips = pips;
  stop_manager = none;
  strategies = ("EURUSD", always_buy ∷ []) ∷ [];
  timeframe = "M15";
  count_of = λ bars. 50;
  last_ts = λ bars. bars;
  trend_of = some (λ bars. "trend");
  signal_filter = none;
  journal_reconcile_ticks = 12;
  process_name = "bot";
  correlation_refresh_ticks = some 60;
  allocator = none;
  allocator_refresh_ticks = 60;
  allocator_score_window = 30;
}

abbrev round : KillTable → Round ℤ ℕ
round kill = record {
  kill_switch = some kill;
  control = none;
  trail_bar = λ symbol. ok none;
  close_bar = λ symbol. ok (some (bar_of 12_490 12_510));
  matrix = [];
  latest_bars = λ symbol. some 60;
  positions = some broker_side;
  now = 100;
  monotonic = 100;
  close_clock = λ ticket. clock 100;
  signal_clock = λ name symbol. clock 100;
}

abbrev idle : Loop ℤ ℕ
idle = record {
  bot = bot;
  running = false;
  tick_count = 0;
  last_bar_ts = [];
  last_reconcile = none;
  last_correlation_refresh = none;
  last_allocator_refresh = none;
  allocation_store = [];
  heartbeats = some [];
}

abbrev tripped : KillTable
tripped = activate 90 "ann" "stop trading" none

run_forever-IsHalted_example :
    IsHalted setup
      (run_forever setup (round none ∷ []) idle).bot
      (run_forever setup ((round none ∷ []) ++ round tripped ∷ round none ∷ []) idle)
run_forever-IsHalted_example =
    run_forever-IsHalted setup (round none ∷ []) (round none ∷ []) (round tripped) idle refl
      (kill_latch 90 "ann" "stop trading" none [] 0 "" refl).0
