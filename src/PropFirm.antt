-- ===== src/PropFirm.antt =====
-- The prop-firm guard: src/propfirm/policy.py, src/propfirm/store.py and src/propfirm/guard.py. The
-- single row of the store is an `Option`; a `ZeroDivisionError`, raised where a reason is formatted,
-- is the outcome `none`, and leaves in the store what was written before.
pub mod Kill
pub mod Permit
pub mod Returns
pub mod Window
use mathlib.Core.Option
use forex_ea.Prelude.{
  ℕ, ◌+◌, Bool, true, false, Option, none, some, String, List, [], ◌∷◌, not, ◌&&◌, if◌then◌else◌,
  nat_beq,
}
use forex_ea.Float.{Float, max_of}
use forex_ea.Execution.{date}

pub record PropFirmPolicy (F : Type 0) : Type 0 where
  pub initial_balance : F
  pub max_daily_loss_pct : F
  pub max_total_drawdown_pct : F
  pub profit_target_pct : F
  pub min_trading_days : ℕ
  pub max_lot_size : Option F
  pub require_stop_loss : Bool
  pub drawdown_from_peak : Bool
  pub preset_name : String

-- The two texts that `observe` formats: the fraction lost and the limit.
pub data KillReason (F : Type 0) : Type 0 where
  daily_dd : F → F → KillReason F
  total_dd : F → F → KillReason F

pub record PropFirmState (F : Type 0) : Type 0 where
  pub initial_balance : F
  pub peak_equity : F
  pub daily_start_equity : F
  pub daily_start_date : ℕ
  pub trading_days_count : ℕ
  pub last_trading_date : Option ℕ
  pub killed_today : Bool
  pub killed_permanently : Bool
  pub killed_reason : Option (KillReason F)
  pub updated_at : ℕ

abbrev pub Store : Type 0 → Type 0
Store F = Option (PropFirmState F)

-- The reasons of `check`; a missing `killed_reason` is replaced by a default text there.
pub data PropFirmReason (F : Type 0) : Type 0 where
  no_state_yet : PropFirmReason F
  account_killed : Option (KillReason F) → PropFirmReason F
  daily_limit_hit : Option (KillReason F) → PropFirmReason F
  stop_loss_required : PropFirmReason F
  lot_over_cap : F → F → PropFirmReason F
  all_clear : PropFirmReason F

pub record PropFirmDecision (F : Type 0) : Type 0 where
  pub approved : Bool
  pub reason : PropFirmReason F

-- `state` and `dirty` of `observe`.
pub record Draft (F : Type 0) : Type 0 where
  pub state : PropFirmState F
  pub dirty : Bool

abbrev same_date : Option ℕ → ℕ → Bool
same_date none d = false
same_date (some e) d = nat_beq e d

-- The calls that the bot makes in its life: at an instant, with a balance.
pub data Call (F : Type 0) : Type 0 where
  observed : ℕ → F → Call F
  opened : ℕ → Call F

abbrev pub call_time : {F : Type 0} → Call F → ℕ
call_time (observed now balance) = now
call_time (opened now) = now

module _ {F : Type 0} ⦃f : Float F⦄ where
  open f use {nought, sub, mul, div, lt, le, eq}

  abbrev pub daily_loss_amount : PropFirmPolicy F → F
  daily_loss_amount p = mul p.initial_balance p.max_daily_loss_pct

  abbrev pub max_drawdown_amount : PropFirmPolicy F → F
  max_drawdown_amount p = mul p.initial_balance p.max_total_drawdown_pct

  abbrev pub profit_target_amount : PropFirmPolicy F → F
  profit_target_amount p = mul p.initial_balance p.profit_target_pct

  -- `PropFirmStore.initialize`: an existing row stays.
  abbrev pub initialize : F → ℕ → ℕ → Store F → PropFirmState F
  initialize initial_balance today now (some existing) = existing
  initialize initial_balance today now none = record {
    initial_balance = initial_balance;
    peak_equity = initial_balance;
    daily_start_equity = initial_balance;
    daily_start_date = today;
    trading_days_count = 0;
    last_trading_date = none;
    killed_today = false;
    killed_permanently = false;
    killed_reason = none;
    updated_at = now;
  }

  unfoldable pub roll_day : ℕ → F → Draft F → Draft F
  roll_day today balance d = if nat_beq d.state.daily_start_date today then d else record {
    state = record (d.state) {
      daily_start_date = today;
      daily_start_equity = balance;
      killed_today = false;
    };
    dirty = true;
  }

  unfoldable pub track_peak : F → Draft F → Draft F
  track_peak balance d =
      if lt d.state.peak_equity balance
      then record { state = record (d.state) { peak_equity = balance }; dirty = true }
      else d

  abbrev pub breaches_daily : PropFirmPolicy F → F → F → Bool
  breaches_daily pol start balance =
      let daily_loss = sub start balance in
      lt nought daily_loss && le (daily_loss_amount pol) daily_loss

  unfoldable pub check_daily : PropFirmPolicy F → F → Draft F → Option (Draft F)
  check_daily pol balance d =
      let start = d.state.daily_start_equity in
      let killed = record (d.state) {
        killed_today = true;
        killed_reason =
            some (KillReason.daily_dd (div (sub start balance) start) pol.max_daily_loss_pct);
      } in
      if not d.state.killed_today && breaches_daily pol start balance
      then if eq start nought then none else some (record { state = killed; dirty = true })
      else some d

  abbrev pub baseline : PropFirmPolicy F → PropFirmState F → F
  baseline pol s =
      if pol.drawdown_from_peak then max_of s.peak_equity s.initial_balance else s.initial_balance

  unfoldable pub check_total : PropFirmPolicy F → F → Draft F → Option (Draft F)
  check_total pol balance d =
      let base = baseline pol d.state in
      let total_loss = sub base balance in
      let killed = record (d.state) {
        killed_permanently = true;
        killed_reason = some (KillReason.total_dd (div total_loss base) pol.max_total_drawdown_pct);
      } in
      if not d.state.killed_permanently
        && (lt nought total_loss && le (max_drawdown_amount pol) total_loss)
      then if eq base nought then none else some (record { state = killed; dirty = true })
      else some d

  -- The write at the end; `kept` is the row from before.
  abbrev settle : ℕ → PropFirmState F → Option (Draft F) → Option (PropFirmState F) × Store F
  settle now kept none = (none, some kept)
  settle now kept (some d) =
      let stamped = record (d.state) { updated_at = now } in
      if d.dirty then (some stamped, some stamped) else (some d.state, some kept)

  unfoldable pub observe : PropFirmPolicy F → ℕ → F → Store F → Option (PropFirmState F) × Store F
  unfolding roll_day track_peak check_daily check_total Option.bind
  observe pol now balance store =
      let start = initialize pol.initial_balance (date now) now store in
      let fresh =
        track_peak balance
          (roll_day (date now) balance (record { state = start; dirty = false })) in
      settle now start (Option.bind (check_daily pol balance fresh) (check_total pol balance))

  unfoldable pub over_cap : Option F → F → Option F
  over_cap none lot = none
  over_cap (some cap) lot = if lt cap lot then some cap else none

  abbrev refuse : PropFirmReason F → PropFirmDecision F
  refuse r = record { approved = false; reason = r }

  abbrev by_cap : F → Option F → PropFirmDecision F
  by_cap lot none = record { approved = true; reason = PropFirmReason.all_clear }
  by_cap lot (some cap) = refuse (PropFirmReason.lot_over_cap lot cap)

  unfoldable pub check : PropFirmPolicy F → Store F → Bool → F → PropFirmDecision F
  unfolding over_cap
  check pol none has_stop lot = record { approved = true; reason = PropFirmReason.no_state_yet }
  check pol (some s) has_stop lot =
      if s.killed_permanently
      then refuse (PropFirmReason.account_killed s.killed_reason)
      else if s.killed_today
      then refuse (PropFirmReason.daily_limit_hit s.killed_reason)
      else if pol.require_stop_loss && not has_stop
      then refuse PropFirmReason.stop_loss_required
      else by_cap lot (over_cap pol.max_lot_size lot)

  pub note_trade_opened : ℕ → Store F → Store F
  note_trade_opened now none = none
  note_trade_opened now (some s) =
      if same_date s.last_trading_date (date now)
      then some s
      else some (record s {
        trading_days_count = s.trading_days_count + 1;
        last_trading_date = some (date now);
        updated_at = now;
      })

  abbrev pub after_call : PropFirmPolicy F → Call F → Store F → Store F
  after_call pol (observed now balance) store = (observe pol now balance store).1
  after_call pol (opened now) store = note_trade_opened now store

  pub after_calls : PropFirmPolicy F → List (Call F) → Store F → Store F
  after_calls pol [] store = store
  after_calls pol (c ∷ calls) store = after_calls pol calls (after_call pol c store)
