-- ===== src/Watchdog/Cooldown.antt =====
-- No action of src/watchdog/watchdog.py is repeated within its cooldown.
use forex_ea.Prelude.{
  ℕ, ◌+◌, ◌*◌, ◌≤◌, ◌≡◌, refl, ◌≢◌, ◌⊎◌, Bool, true, false, ◌&&◌, Option, none, some, List, [], ◌∷◌,
  arith, String, inl, inr, Bool-cases, All,
}
use forex_ea.Execution.{second}
use forex_ea.Watchdog.{
  WatchdogAction, WatchdogConfig, WatchdogReport, ActionLog, Readings, in_cooldown, respond,
  run_report, run_once, run_all, decide, read_heartbeat, WatchdogReason, Heartbeat, same_action,
  acted, answer,
}

-- Every row of the log was written by `now`.
abbrev pub IsPast : ℕ → ActionLog → Type 0
IsPast now log = All (λ (q : WatchdogReport). q.taken_at ≤ now) log

-- A row that ran an action with success stands at least the cooldown after every older success of it.
abbrev pub IsSpacedFrom : ℕ → WatchdogReport → ActionLog → Type 0
IsSpacedFrom cooldown r log =
    All
      (λ (q : WatchdogReport).
        (r.action ≡ WatchdogAction.nothing)
        ⊎ ((r.action ≢ q.action)
            ⊎ ((q.success ≡ false) ⊎ (q.taken_at + cooldown * second ≤ r.taken_at))))
      log

abbrev pub IsSpaced : ℕ → ActionLog → Type 0
IsSpaced cooldown [] = Unit
IsSpaced cooldown (r ∷ log) =
    IsPast r.taken_at log × IsSpacedFrom cooldown r log × IsSpaced cooldown log

IsPast-le : (s t : ℕ) (log : ActionLog) → s ≤ t → IsPast s log → IsPast t log
IsPast-le s t [] h p = tt
IsPast-le s t (q ∷ log) h (p, ps) = (omega arith, IsPast-le s t log h ps)

no_action-spaced :
    (cooldown : ℕ) (r : WatchdogReport) (log : ActionLog)
    → r.action ≡ WatchdogAction.nothing
    → IsSpacedFrom cooldown r log
no_action-spaced cooldown r [] e = tt
no_action-spaced cooldown r (q ∷ log) e = (inl e, no_action-spaced cooldown r log e)

-- Every older success is no later than the newest one, which is out of its cooldown.
spaced_of_past :
    (cooldown t : ℕ) (r : WatchdogReport) (log : ActionLog)
    → t + cooldown * second ≤ r.taken_at
    → IsPast t log
    → IsSpacedFrom cooldown r log
spaced_of_past cooldown t r [] h p = tt
spaced_of_past cooldown t r (q ∷ log) h (p, ps) =
    (inr (inr (inr (omega arith))), spaced_of_past cooldown t r log h ps)

same_action-cases :
    (a b : WatchdogAction)
    → ((same_action a b ≡ true) × (b ≡ a)) ⊎ ((same_action a b ≡ false) × (b ≢ a))
same_action-cases a b = ground arith

-- A row that is not found as a success of the action says nothing about it.
other_row :
    (q r : WatchdogReport)
    → (same_action q.action r.action && q.success) ≡ false
    → (r.action ≢ q.action) ⊎ (q.success ≡ false)
other_row q r h = ground (arith, same_action-cases q.action r.action)

out_of_cooldown-spaced :
    (cfg : WatchdogConfig) (r : WatchdogReport) (log : ActionLog)
    → IsSpaced cfg.cooldown_s log
    → in_cooldown cfg r.action r.taken_at log ≡ false
    → IsSpacedFrom cfg.cooldown_s r log
unfolding in_cooldown
out_of_cooldown-spaced cfg r [] s h = tt
out_of_cooldown-spaced cfg r (q ∷ log) (past, _, s) h =
    elim (Bool-cases (same_action q.action r.action && q.success)) [
      | inl newest ↦
          let apart : q.taken_at + cfg.cooldown_s * second ≤ r.taken_at = ground arith in
          (inr (inr (inr apart)), spaced_of_past cfg.cooldown_s q.taken_at r log apart past)
      | inr other ↦ (
        elim (other_row q r other) [ inl a ↦ inr (inl a) | inr b ↦ inr (inr (inl b)) ],
        out_of_cooldown-spaced cfg r log s (rw other at h),
      )
    ]

acted-row :
    (action : WatchdogAction) (reason : WatchdogReason) (now : ℕ) (a : Option (Bool × String))
    → ((acted action reason now a).action ≡ action) × ((acted action reason now a).taken_at ≡ now)
acted-row action reason now none = (refl, refl)
acted-row action reason now (some (done, text)) = (refl, refl)

respond-cases :
    (cfg : WatchdogConfig) (r : Readings) (log : ActionLog) (hb : Option Heartbeat)
    (d : Option (WatchdogAction × WatchdogReason))
    → let report = respond cfg r log hb d in
      (report.taken_at ≡ r.now)
      × ((report.action ≡ WatchdogAction.nothing)
          ⊎ (in_cooldown cfg report.action r.now log ≡ false))
unfolding respond
respond-cases cfg r log hb none = (refl, inl refl)
respond-cases cfg r log hb (some (action, reason)) =
    let (ran, on_time) = acted-row action reason r.now (answer action r) in
    elim (Bool-cases (in_cooldown cfg action r.now log)) [
      | inl wait ↦ rw wait (refl, inl refl)
      | inr apart ↦ rw apart (on_time, inr (rw ran apart))
    ]

-- A report that acts does so out of the cooldown, and at the time of its run.
run_report-cases :
    (cfg : WatchdogConfig) (r : Readings) (log : ActionLog)
    → let report = run_report cfg r log in
      (report.taken_at ≡ r.now)
      × ((report.action ≡ WatchdogAction.nothing)
          ⊎ (in_cooldown cfg report.action r.now log ≡ false))
unfolding run_report
run_report-cases cfg r log =
    let hb = read_heartbeat cfg.bot_process_name r.heartbeats in
    respond-cases cfg r log hb (decide cfg hb r.broker r.now)

run_once-IsSpaced :
    (cfg : WatchdogConfig) (r : Readings) (log : ActionLog)
    → IsPast r.now log
    → IsSpaced cfg.cooldown_s log
    → IsSpaced cfg.cooldown_s (run_once cfg r log).1
unfolding run_once
run_once-IsSpaced cfg r log p s =
    let report = run_report cfg r log in
    let (on_time, how) = run_report-cases cfg r log in
    let past : IsPast report.taken_at log = rw on_time p in
    elim how [
      | inl idle ↦ (past, no_action-spaced cfg.cooldown_s report log idle, s)
      | inr apart ↦ (past, out_of_cooldown-spaced cfg report log s (rw on_time apart), s)
    ]

-- The clock does not run backwards over a sequence of runs that begins at `start`.
abbrev pub IsClock : ℕ → List Readings → Type 0
IsClock start [] = Unit
IsClock start (r ∷ rs) = (start ≤ r.now) × IsClock r.now rs

-- If the clock never runs backwards, then in the log of any sequence of runs two successful
-- recoveries of the same kind are at least the cooldown apart.
pub run_all-IsSpaced :
    (cfg : WatchdogConfig) (start : ℕ) (rs : List Readings) (log : ActionLog)
    → IsClock start rs
    → IsPast start log
    → IsSpaced cfg.cooldown_s log
    → IsSpaced cfg.cooldown_s (run_all cfg rs log)
unfolding run_all run_once
run_all-IsSpaced cfg start [] log c p s = s
run_all-IsSpaced cfg start (r ∷ rs) log (later, c) p s =
    let past = IsPast-le start r.now log later p in
    run_all-IsSpaced cfg r.now rs (run_once cfg r log).1 c
      (ground (arith, run_report-cases cfg r log), past) (run_once-IsSpaced cfg r log past s)
