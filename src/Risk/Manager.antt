-- ===== src/Risk/Manager.antt =====
-- The gates that a signal passes before an order is sent: src/risk/risk_manager.py. The blackout
-- checker, the throttle and the prop-firm guard are the models of those parts, absent where the manager
-- has none; the lot sizer is a parameter of `evaluate`, as it is in the source.
pub mod Exposure
pub mod Day
pub mod Approval
use mathlib.Core.Option
use forex_ea.Prelude.{
  ℕ, ◌+◌, ◌-◌, Bool, true, false, Option, none, some, List, String, not, ◌&&◌, if◌then◌else◌,
  nat_beq, leb,
}
use forex_ea.Result.{Result, ok, err, ◌>>=◌}
use forex_ea.Float.{Float, max_of}
use forex_ea.Execution.{SignalType, date}
use forex_ea.Calendar.{BlackoutPolicy, EventTable, CalendarEvent, current_blackout}
use forex_ea.Correlation.{
  OpenPosition, ThrottlePolicy, ThrottleReason, ThrottleDecision, PairTable, decide,
}
use forex_ea.PropFirm.{PropFirmPolicy, PropFirmReason, PropFirmDecision, Store, check}

pub record RiskLimits (F : Type 0) : Type 0 where
  pub risk_per_trade : F
  pub max_open_trades : ℕ
  pub max_daily_loss_pct : F
  pub max_portfolio_heat_pct : F
  pub min_balance : F
  pub daily_profit_target : F

-- The texts of a decision.
pub data RiskReason (F : Type 0) : Type 0 where
  zero_weight : RiskReason F
  below_min_balance : F → F → RiskReason F
  max_open_trades_reached : ℕ → RiskReason F
  heat_limit : RiskReason F
  daily_loss_breaker : F → RiskReason F
  profit_target_reached : F → F → RiskReason F
  calendar : String → String → RiskReason F
  throttled : ThrottleReason F → RiskReason F
  zero_lots : RiskReason F
  propfirm : PropFirmReason F → RiskReason F
  all_passed : RiskReason F

pub record RiskDecision (F : Type 0) : Type 0 where
  pub approved : Bool
  pub reason : RiskReason F
  pub lot_size : Option F

pub record RiskState (F : Type 0) : Type 0 where
  pub open_trade_count : ℕ
  pub open_risk_pct : F
  pub daily_pnl : F
  pub last_reset : Option ℕ

pub record RiskManager (F : Type 0) : Type 0 where
  pub limits : RiskLimits F
  pub blackout_checker : Option (BlackoutPolicy × EventTable)
  pub portfolio_throttle : Option (ThrottlePolicy F × PairTable F)
  pub propfirm_guard : Option (PropFirmPolicy F × Store F)

-- The arguments of `evaluate`, and what the clock reads there at each of its two calls.
pub record Request (F : Type 0) : Type 0 where
  pub account_balance : F
  pub stop_distance_pips : F
  pub symbol : String
  pub side : Option SignalType
  pub open_positions : Option (List (OpenPosition F))
  pub risk_multiplier : F
  pub reset_at : ℕ
  pub blackout_at : ℕ

-- `lot_sizer(account_balance, risk_pct, stop_distance_pips, symbol)`
abbrev pub LotSizer : Type 0 → Type 0
LotSizer F = F → F → F → String → Result F

module _ {F : Type 0} ⦃f : Float F⦄ where
  open f use {nought, add, sub, mul, div, neg, lt, le}

  -- `today` is the date that the clock reads.
  unfoldable pub daily_reset_if_needed : ℕ → RiskState F → RiskState F
  daily_reset_if_needed today s = elim s.last_reset [
    | none ↦ record s { last_reset = some today }
    | some last ↦
        if nat_beq today last then s else record s { daily_pnl = nought; last_reset = some today }
  ]

  unfoldable pub register_trade_opened : F → RiskState F → RiskState F
  register_trade_opened risk_pct s = record s {
    open_trade_count = s.open_trade_count + 1;
    open_risk_pct = add s.open_risk_pct risk_pct;
  }

  unfoldable pub register_trade_closed : F → F → RiskState F → RiskState F
  register_trade_closed risk_pct pnl s = record s {
    open_trade_count = s.open_trade_count - 1;
    open_risk_pct = max_of nought (sub s.open_risk_pct risk_pct);
    daily_pnl = add s.daily_pnl pnl;
  }

  abbrev refuse : RiskReason F → RiskDecision F
  refuse r = record { approved = false; reason = r; lot_size = none }

  abbrev pub effective_risk : RiskLimits F → Request F → F
  effective_risk lim req = mul lim.risk_per_trade req.risk_multiplier

  abbrev pub daily_loss_pct : RiskState F → F → F
  daily_loss_pct s balance = if lt nought balance then div (neg s.daily_pnl) balance else nought

  -- The gates on the account, by the reason of the first that closes.
  unfoldable pub account_gate : RiskLimits F → RiskState F → Request F → Option (RiskReason F)
  account_gate lim s req =
      let loss = daily_loss_pct s req.account_balance in
      if le req.risk_multiplier nought
      then some RiskReason.zero_weight
      else if lt req.account_balance lim.min_balance
      then some (RiskReason.below_min_balance req.account_balance lim.min_balance)
      else if leb lim.max_open_trades s.open_trade_count
      then some (RiskReason.max_open_trades_reached lim.max_open_trades)
      else if lt lim.max_portfolio_heat_pct (add s.open_risk_pct (effective_risk lim req))
      then some RiskReason.heat_limit
      else if le lim.max_daily_loss_pct loss
      then some (RiskReason.daily_loss_breaker loss)
      else if lt nought lim.daily_profit_target && le lim.daily_profit_target s.daily_pnl
      then some (RiskReason.profit_target_reached s.daily_pnl lim.daily_profit_target)
      else none

  abbrev by_event : Option CalendarEvent → Option (RiskReason F)
  by_event none = none
  by_event (some e) = some (RiskReason.calendar e.currency e.title)

  unfoldable pub calendar_gate : RiskManager F → Request F → Option (RiskReason F)
  calendar_gate m req = elim m.blackout_checker [
    | none ↦ none
    | some (pol, table) ↦ by_event (current_blackout pol table req.symbol req.blackout_at)
  ]

  abbrev by_throttle : ThrottleDecision F → Option (RiskReason F)
  by_throttle d = if d.approved then none else some (RiskReason.throttled d.reason)

  -- Skipped where the caller passes no side or no positions.
  unfoldable pub throttle_with :
      Option (ThrottlePolicy F × PairTable F)
      → Option SignalType
      → Option (List (OpenPosition F))
      → String
      → F
      → Option (RiskReason F)
  throttle_with (some (pol, store)) (some side) (some positions) symbol risk =
      by_throttle (decide pol store symbol side risk positions)
  throttle_with _ _ _ symbol risk = none

  unfoldable pub throttle_gate : RiskManager F → Request F → Option (RiskReason F)
  unfolding throttle_with
  throttle_gate m req =
      throttle_with m.portfolio_throttle req.side req.open_positions req.symbol
        (effective_risk m.limits req)

  -- `stop_distance_pips > 0` is `signal_has_stop`.
  abbrev by_propfirm : F → PropFirmDecision F → RiskDecision F
  by_propfirm lots d =
      if d.approved
      then record { approved = true; reason = RiskReason.all_passed; lot_size = some lots }
      else refuse (RiskReason.propfirm d.reason)

  unfoldable pub finish : RiskManager F → Request F → F → RiskDecision F
  finish m req lots =
      if le lots nought then refuse RiskReason.zero_lots else elim m.propfirm_guard [
        | none ↦ record { approved = true; reason = RiskReason.all_passed; lot_size = some lots }
        | some (pol, store) ↦
            by_propfirm lots (check pol store (lt nought req.stop_distance_pips) lots)
      ]

  -- The reason of the first gate that closes before the lots are computed.
  unfoldable pub first_veto : RiskManager F → RiskState F → Request F → Option (RiskReason F)
  unfolding account_gate calendar_gate throttle_gate
  first_veto m s req =
      Option.or_else (account_gate m.limits s req)
        (Option.or_else (calendar_gate m req) (throttle_gate m req))

  abbrev unless_vetoed :
      RiskManager F → LotSizer F → Request F → Option (RiskReason F) → Result (RiskDecision F)
  unless_vetoed m lot_sizer req (some r) = ok (refuse r)
  unless_vetoed m lot_sizer req none =
      lot_sizer req.account_balance (effective_risk m.limits req) req.stop_distance_pips req.symbol
      >>= λ lots. ok (finish m req lots)

  unfoldable pub assess :
      RiskManager F → LotSizer F → RiskState F → Request F → Result (RiskDecision F)
  unfolding first_veto finish
  assess m lot_sizer s req = unless_vetoed m lot_sizer req (first_veto m s req)

  unfoldable pub evaluate :
      RiskManager F → LotSizer F → Request F → RiskState F → Result (RiskDecision F) × RiskState F
  unfolding assess
  evaluate m lot_sizer req s =
      let s' = daily_reset_if_needed (date req.reset_at) s in (assess m lot_sizer s' req, s')
