-- ===== src/Risk/Manager/Exposure.antt =====
-- How many trades are open: the counter of src/risk/risk_manager.py over any run of its calls.
use mathlib.Core.Option
use forex_ea.Prelude.{ℕ, ◌≤◌, ◌<◌, ◌≡◌, refl, true, none, arith, inl, inr, Option-cases}
use forex_ea.Result.{ok}
use forex_ea.Float.{Float}
use forex_ea.Execution.{date}
use forex_ea.Risk.Manager.{
  RiskManager, RiskLimits, RiskState, RiskDecision, Request, LotSizer, evaluate, assess, first_veto,
  account_gate, register_trade_opened, register_trade_closed, daily_reset_if_needed,
}

-- The calls of one manager with the limits `lim`: a trade is opened only after an approval, with
-- whatever risk is booked for it; the other gates may have changed since the last call.
pub data RiskStep {F : Type 0} ⦃f : Float F⦄ (lim : RiskLimits F) (s : RiskState F)
    : RiskState F → Type 0 where
  opening :
      (m : RiskManager F) (sizer : LotSizer F) (req : Request F) (d : RiskDecision F) (booked : F)
      → m.limits ≡ lim
      → (evaluate m sizer req s).0 ≡ ok d
      → d.approved ≡ true
      → RiskStep lim s (register_trade_opened booked (evaluate m sizer req s).1)
  evaluating :
      (m : RiskManager F) (sizer : LotSizer F) (req : Request F)
      → RiskStep lim s (evaluate m sizer req s).1
  closing : (booked pnl : F) → RiskStep lim s (register_trade_closed booked pnl s)

pub data RiskSteps {F : Type 0} ⦃f : Float F⦄ (lim : RiskLimits F) (s : RiskState F)
    : RiskState F → Type 0 where
  start : RiskSteps lim s s
  next : {t u : RiskState F} → RiskSteps lim s t → RiskStep lim t u → RiskSteps lim s u

module _ {F : Type 0} ⦃f : Float F⦄ where
  pub daily_reset-open_trade_count :
      (today : ℕ) (s : RiskState F)
      → (daily_reset_if_needed today s).open_trade_count ≡ s.open_trade_count
  unfolding daily_reset_if_needed
  daily_reset-open_trade_count today s = elim (Option-cases s.last_reset) [
    | inl unset ↦ rw unset refl
    | inr (last, seen) ↦ rw seen (ground arith)
  ]

  account_gate-room :
      (lim : RiskLimits F) (s : RiskState F) (req : Request F)
      → account_gate lim s req ≡ none
      → s.open_trade_count < lim.max_open_trades
  unfolding account_gate
  account_gate-room lim s req h = ground arith

  -- A decision that approves comes from gates that are all open.
  pub approved-first_veto :
      (m : RiskManager F) (sizer : LotSizer F) (s : RiskState F) (req : Request F)
      (d : RiskDecision F)
      → assess m sizer s req ≡ ok d
      → d.approved ≡ true
      → first_veto m s req ≡ none
  unfolding assess
  approved-first_veto m sizer s req d h approves = elim (Option-cases (first_veto m s req)) [
    | inl passed ↦ passed
    | inr (r, closed) ↦ cc (rw closed at h)
  ]

  pub first_veto-account_gate :
      (m : RiskManager F) (s : RiskState F) (req : Request F)
      → first_veto m s req ≡ none
      → account_gate m.limits s req ≡ none
  unfolding first_veto Option.or_else
  first_veto-account_gate m s req h = elim (Option-cases (account_gate m.limits s req)) [
    | inl passed ↦ passed
    | inr (r, closed) ↦ cc (rw closed at h)
  ]

  -- After an evaluation that approves there is room for one more trade.
  pub evaluate-room :
      (m : RiskManager F) (sizer : LotSizer F) (req : Request F) (s : RiskState F)
      (d : RiskDecision F)
      → (evaluate m sizer req s).0 ≡ ok d
      → d.approved ≡ true
      → (evaluate m sizer req s).1.open_trade_count < m.limits.max_open_trades
  unfolding evaluate
  evaluate-room m sizer req s d h approves =
      let s' = daily_reset_if_needed (date req.reset_at) s in
      account_gate-room m.limits s' req
        (first_veto-account_gate m s' req (approved-first_veto m sizer s' req d h approves))

  pub evaluate-open_trade_count :
      (m : RiskManager F) (sizer : LotSizer F) (req : Request F) (s : RiskState F)
      → (evaluate m sizer req s).1.open_trade_count ≡ s.open_trade_count
  unfolding evaluate
  evaluate-open_trade_count m sizer req s = daily_reset-open_trade_count (date req.reset_at) s

  RiskStep-bounded :
      {lim : RiskLimits F} {s t : RiskState F}
      → RiskStep lim s t
      → s.open_trade_count ≤ lim.max_open_trades
      → t.open_trade_count ≤ lim.max_open_trades
  unfolding register_trade_opened register_trade_closed evaluate
  RiskStep-bounded {s = s} (opening m sizer req d booked same h approves) le =
      omega (arith, rw same at (evaluate-room m sizer req s d h approves))
  RiskStep-bounded {s = s} (evaluating m sizer req) le =
      rw (evaluate-open_trade_count m sizer req s) le
  RiskStep-bounded (closing booked pnl) le = omega arith

  -- Whatever the manager is asked and told in its life, by evaluations, openings that follow an
  -- approval, and closings, the number of open trades never exceeds the limit it was given.
  pub open_trade_count_bounded :
      {lim : RiskLimits F} {s t : RiskState F}
      → RiskSteps lim s t
      → s.open_trade_count ≤ lim.max_open_trades
      → t.open_trade_count ≤ lim.max_open_trades
  open_trade_count_bounded start le = le
  open_trade_count_bounded (next steps step) le =
      RiskStep-bounded step (open_trade_count_bounded steps le)
