-- ===== src/Tests/Watchdog.antt =====
-- A watchdog whose bot has been silent for a while.
use forex_ea.Prelude.{ℕ, true, none, some, List, [], ◌∷◌, String, arith}
use forex_ea.Table.{Table, string_eq}
use forex_ea.Watchdog.{WatchdogConfig, Heartbeat, BrokerStatus, Readings, run_all, write_heartbeat}
use forex_ea.Watchdog.Cooldown.{IsSpaced, run_all-IsSpaced}

abbrev config : WatchdogConfig
config = record {
  bot_process_name = "bot";
  heartbeat_stale_s = 120;
  broker_disconnect_s = 300;
  cooldown_s = 600;
}

abbrev beat : Heartbeat
beat = record { last_tick_at = 1_000_000; tick_count = 7; pid = some 42; last_error = none }

abbrev beats : Table String Heartbeat
beats = write_heartbeat "bot" beat []

abbrev connected : BrokerStatus
connected = record {
  connected = true;
  broker = none;
  server = none;
  login = none;
  account_info = none;
  last_error = none;
  updated_at = 0;
}

abbrev at_time : ℕ → Readings
at_time now = record {
  now = now;
  heartbeats = beats;
  broker = some connected;
  restart_answer = some (true, "restarted");
  recycle_answer = none;
}

abbrev runs : List Readings
runs = at_time 50_000_000 ∷ at_time 200_000_000 ∷ at_time 260_000_000 ∷ []

run_all-IsSpaced_example : IsSpaced 600 (run_all config runs [])
run_all-IsSpaced_example =
    run_all-IsSpaced config 0 runs [] (omega arith, (omega arith, (omega arith, tt))) tt tt
