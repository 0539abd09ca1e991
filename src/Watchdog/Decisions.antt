-- ===== src/Watchdog/Decisions.antt =====
-- When src/watchdog/watchdog.py acts, from what src/watchdog/heartbeat.py and src/api/broker_status.py
-- hold.
use forex_ea.Prelude.{
  ℕ, ◌+◌, ◌*◌, ◌≤◌, ◌<◌, ◌≡◌, ◌⊎◌, true, false, Option, none, some, arith, String, inl, inr,
  Option-cases,
}
use forex_ea.Table.{Table, string_eq, lookup-upsert_self}
use forex_ea.Execution.{second}
use forex_ea.Watchdog.{
  WatchdogAction, WatchdogConfig, WatchdogReason, ActionLog, Readings, Heartbeat, BrokerStatus,
  run_report, last_success, decide, read_heartbeat, write_heartbeat, idle,
}

-- The bot has written a heartbeat, and none for the threshold.
abbrev pub IsStale : WatchdogConfig → ℕ → Option Heartbeat → Type 0
IsStale cfg now none = ⊥
IsStale cfg now (some hb) = hb.last_tick_at + cfg.heartbeat_stale_s * second ≤ now

-- The bot writes heartbeats, and reported the broker as disconnected at least the threshold ago.
abbrev pub IsCutOff : WatchdogConfig → ℕ → Option Heartbeat → Option BrokerStatus → Type 0
IsCutOff cfg now none broker = ⊥
IsCutOff cfg now (some hb) none = ⊥
IsCutOff cfg now (some hb) (some bs) =
    (now < hb.last_tick_at + cfg.heartbeat_stale_s * second)
    × (bs.connected ≡ false)
    × (bs.updated_at + cfg.broker_disconnect_s * second ≤ now)

-- The last run of the action that succeeded, if any, is at least the cooldown ago.
abbrev pub IsFree : WatchdogConfig → ℕ → Option ℕ → Type 0
IsFree cfg now none = Unit
IsFree cfg now (some last) = last + cfg.cooldown_s * second ≤ now

abbrev MayAct : WatchdogConfig → Readings → ActionLog → WatchdogAction → Type 0
MayAct cfg r log action = IsFree cfg r.now (last_success action log)

-- What the action of a run means.
abbrev pub IsRun :
    WatchdogConfig → Readings → ActionLog → Option Heartbeat → WatchdogAction → Type 0
IsRun cfg r log hb WatchdogAction.restart_bot =
    IsStale cfg r.now hb × MayAct cfg r log WatchdogAction.restart_bot
IsRun cfg r log hb WatchdogAction.recycle_mt5 =
    IsCutOff cfg r.now hb r.broker × MayAct cfg r log WatchdogAction.recycle_mt5
IsRun cfg r log hb WatchdogAction.nothing =
    (IsStale cfg r.now hb → ¬ MayAct cfg r log WatchdogAction.restart_bot)
    × (IsCutOff cfg r.now hb r.broker → ¬ MayAct cfg r log WatchdogAction.recycle_mt5)

-- What the decision means.
abbrev IsDecision :
    WatchdogConfig
    → ℕ
    → Option Heartbeat
    → Option BrokerStatus
    → Option (WatchdogAction × WatchdogReason)
    → Type 0
IsDecision cfg now hb broker none = (¬ IsStale cfg now hb) × (¬ IsCutOff cfg now hb broker)
IsDecision cfg now hb broker (some (action, reason)) =
    ((action ≡ WatchdogAction.restart_bot) × IsStale cfg now hb)
    ⊎ ((action ≡ WatchdogAction.recycle_mt5) × IsCutOff cfg now hb broker)

-- While the bot's last heartbeat is younger than the threshold, and the broker is reported as
-- connected or has no report, a run changes nothing: it only logs that all is healthy.
run_report_healthy :
    (cfg : WatchdogConfig) (r : Readings) (log : ActionLog) (hb : Heartbeat)
    (table : Table String Heartbeat)
    → r.heartbeats ≡ write_heartbeat cfg.bot_process_name hb table
    → r.now < hb.last_tick_at + cfg.heartbeat_stale_s * second
    → ((bs : BrokerStatus) → r.broker ≡ some bs → bs.connected ≡ true)
    → run_report cfg r log ≡ idle WatchdogReason.all_healthy r.now
unfolding run_report decide write_heartbeat read_heartbeat
run_report_healthy cfg r log hb table wrote fresh linked = elim (Option-cases r.broker) [
  | inl unknown ↦
      rw (wrote, lookup-upsert_self cfg.bot_process_name hb table, unknown) (ground arith)
  | inr (bs, e) ↦
      rw (wrote, lookup-upsert_self cfg.bot_process_name hb table, e) (ground (arith, linked bs e))
]
