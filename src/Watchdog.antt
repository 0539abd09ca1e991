-- ===== src/Watchdog.antt =====
-- The watchdog: src/watchdog/watchdog.py over src/watchdog/heartbeat.py and the broker status of
-- src/api/broker_status.py. What the callbacks answer is an input of each run, `none` for an exception.
pub mod Cooldown
pub mod Decisions
use forex_ea.Prelude.{
  ℕ, Bool, true, false, Option, none, some, List, [], ◌∷◌, String, ◌&&◌, ◌||◌, if◌then◌else◌, take,
}
use forex_ea.Table.{Table, lookup, upsert, string_eq}
use forex_ea.Execution.{elapsed_ge, elapsed_lt}

pub data WatchdogAction : Type 0 where
  nothing restart_bot recycle_mt5 : WatchdogAction

abbrev pub same_action : WatchdogAction → WatchdogAction → Bool
same_action WatchdogAction.nothing WatchdogAction.nothing = true
same_action WatchdogAction.restart_bot WatchdogAction.restart_bot = true
same_action WatchdogAction.recycle_mt5 WatchdogAction.recycle_mt5 = true
same_action _ _ = false

pub record WatchdogConfig : Type 0 where
  pub bot_process_name : String
  pub heartbeat_stale_s : ℕ
  pub broker_disconnect_s : ℕ
  pub cooldown_s : ℕ

pub record Heartbeat : Type 0 where
  pub last_tick_at : ℕ
  pub tick_count : ℕ
  pub pid : Option ℕ
  pub last_error : Option String

-- `HeartbeatStore.write` and `read`; the table's key is the process name.
pub write_heartbeat : String → Heartbeat → Table String Heartbeat → Table String Heartbeat
write_heartbeat process_name hb table = upsert process_name hb table

pub read_heartbeat : String → Table String Heartbeat → Option Heartbeat
read_heartbeat process_name table = lookup process_name table

-- The JSON text of the account snapshot stands for the decoded `dict`.
pub record BrokerStatus : Type 0 where
  pub connected : Bool
  pub broker : Option String
  pub server : Option String
  pub login : Option ℕ
  pub account_info : Option String
  pub last_error : Option String
  pub updated_at : ℕ

-- The texts of a report: the instants that they format, and the broker's error.
pub data WatchdogReason : Type 0 where
  all_healthy no_heartbeat : WatchdogReason
  would_have_run : WatchdogAction → WatchdogReason → WatchdogReason
  heartbeat_stale : ℕ → WatchdogReason
  broker_disconnected : ℕ → Option String → WatchdogReason

pub data Detail : Type 0 where
  callback_detail : String → Detail
  callback_raised : Detail

pub record WatchdogReport : Type 0 where
  pub action : WatchdogAction
  pub reason : WatchdogReason
  pub success : Bool
  pub detail : Option Detail
  pub taken_at : ℕ

-- The table `watchdog_actions`, the newest row first.
abbrev pub ActionLog : Type 0
ActionLog = List WatchdogReport

-- What a run reads: the clock, the two stores, and the answers of the callbacks.
pub record Readings : Type 0 where
  pub now : ℕ
  pub heartbeats : Table String Heartbeat
  pub broker : Option BrokerStatus
  pub restart_answer : Option (Bool × String)
  pub recycle_answer : Option (Bool × String)

broker_decision :
    WatchdogConfig → Option BrokerStatus → ℕ → Option (WatchdogAction × WatchdogReason)
broker_decision cfg none now = none
broker_decision cfg (some bs) now =
    if bs.connected
    then none
    else if elapsed_ge now bs.updated_at cfg.broker_disconnect_s
    then some
        (WatchdogAction.recycle_mt5, WatchdogReason.broker_disconnected bs.updated_at bs.last_error)
    else none

pub decide :
    WatchdogConfig
    → Option Heartbeat
    → Option BrokerStatus
    → ℕ
    → Option (WatchdogAction × WatchdogReason)
unfolding broker_decision
decide cfg none broker now = none
decide cfg (some hb) broker now =
    if elapsed_ge now hb.last_tick_at cfg.heartbeat_stale_s
    then some (WatchdogAction.restart_bot, WatchdogReason.heartbeat_stale hb.last_tick_at)
    else broker_decision cfg broker now

-- `SELECT taken_at ... WHERE action = ? AND success = 1 ORDER BY id DESC LIMIT 1`
pub last_success : WatchdogAction → ActionLog → Option ℕ
last_success action [] = none
last_success action (r ∷ log) =
    if same_action r.action action && r.success then some r.taken_at else last_success action log

abbrev within : ℕ → ℕ → Option ℕ → Bool
within now cooldown none = false
within now cooldown (some last) = elapsed_lt now last cooldown

pub in_cooldown : WatchdogConfig → WatchdogAction → ℕ → ActionLog → Bool
unfolding last_success
in_cooldown cfg action now log = within now cfg.cooldown_s (last_success action log)

abbrev answer : WatchdogAction → Readings → Option (Bool × String)
answer WatchdogAction.restart_bot r = r.restart_answer
answer _ r = r.recycle_answer

-- The report of an action by what its callback answered.
abbrev acted : WatchdogAction → WatchdogReason → ℕ → Option (Bool × String) → WatchdogReport
acted action reason now none = record {
  action = action;
  reason = reason;
  success = false;
  detail = some Detail.callback_raised;
  taken_at = now;
}
acted action reason now (some (done, text)) = record {
  action = action;
  reason = reason;
  success = done;
  detail = some (Detail.callback_detail text);
  taken_at = now;
}

abbrev pub idle : WatchdogReason → ℕ → WatchdogReport
idle reason now = record {
  action = WatchdogAction.nothing;
  reason = reason;
  success = true;
  detail = none;
  taken_at = now;
}

abbrev idle_reason : Option Heartbeat → WatchdogReason
idle_reason none = WatchdogReason.no_heartbeat
idle_reason (some hb) = WatchdogReason.all_healthy

respond :
    WatchdogConfig
    → Readings
    → ActionLog
    → Option Heartbeat
    → Option (WatchdogAction × WatchdogReason)
    → WatchdogReport
respond cfg r log hb none = idle (idle_reason hb) r.now
respond cfg r log hb (some (action, reason)) =
    if in_cooldown cfg action r.now log
    then idle (WatchdogReason.would_have_run action reason) r.now
    else acted action reason r.now (answer action r)

pub run_report : WatchdogConfig → Readings → ActionLog → WatchdogReport
unfolding respond
run_report cfg r log =
    let hb = read_heartbeat cfg.bot_process_name r.heartbeats in
    respond cfg r log hb (decide cfg hb r.broker r.now)

-- The report, and the log with its row.
pub run_once : WatchdogConfig → Readings → ActionLog → WatchdogReport × ActionLog
run_once cfg r log = let report = run_report cfg r log in (report, report ∷ log)

-- The log after a sequence of runs.
pub run_all : WatchdogConfig → List Readings → ActionLog → ActionLog
run_all cfg [] log = log
run_all cfg (r ∷ rs) log = run_all cfg rs (run_once cfg r log).1

pub recent_actions : ℕ → ActionLog → List WatchdogReport
recent_actions limit log = take limit log
