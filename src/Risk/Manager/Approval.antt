-- ===== src/Risk/Manager/Approval.antt =====
-- What an approval guarantees: `RiskManager.evaluate` of src/risk/risk_manager.py, with the lot sizer
-- `lot_size_from_risk` and with every gate present.
use mathlib.Core.Option
use forex_ea.Prelude.{
  ℕ, ◌<◌, ◌≡◌, refl, sym, true, false, Option, none, some, List, String, arith, ◌&&◌, inl, inr,
  Option-cases, All,
}
use forex_ea.Result.{Result, ok, err, ◌>>=◌}
use forex_ea.Float.{Float, IsOrdered, IsNumber, ◌≼◌, ◌≺◌}
use forex_ea.Execution.{SignalType, date}
use forex_ea.Calendar.{BlackoutPolicy, EventTable, CalendarEvent, current_blackout}
use forex_ea.Calendar.Symbols.{currencies_for_symbol}
use forex_ea.Calendar.Blackout.{IsBlocking, IsVerdict, current_blackout-IsVerdict}
use forex_ea.Correlation.{OpenPosition, ThrottlePolicy, PairTable}
use forex_ea.Correlation.Decision.{IsUncorrelated, decide-IsUncorrelated}
use forex_ea.PropFirm.{PropFirmPolicy, PropFirmState, check}
use forex_ea.PropFirm.Permit.{IsPermitted, check-IsPermitted}
use forex_ea.Risk.Sizing.{default_lots, lot_size_from_risk, stepped_of}
use forex_ea.Risk.Sizing.Bounds.{IsFloored, IsSmall, IsWithin, lot_size_from_risk-IsSized}
use forex_ea.Risk.Manager.{
  RiskManager, RiskLimits, RiskState, RiskDecision, Request, LotSizer, evaluate, assess, finish,
  first_veto, account_gate, calendar_gate, throttle_gate, throttle_with, effective_risk,
  daily_loss_pct, daily_reset_if_needed, by_event,
}
use forex_ea.Risk.Manager.Exposure.{approved-first_veto, first_veto-account_gate}

module _ {F : Type 0} ⦃f : Float F⦄ where
  open f use {nought, add, mul, div, lt, le, round_cents, lit}

  -- The account's own limits leave room for the risk of the request.
  abbrev pub HasRoom : RiskLimits F → RiskState F → Request F → Type 0
  HasRoom lim s req =
      (le req.risk_multiplier nought ≡ false)
      × (lt req.account_balance lim.min_balance ≡ false)
      × (s.open_trade_count < lim.max_open_trades)
      × (lt lim.max_portfolio_heat_pct (add s.open_risk_pct (effective_risk lim req)) ≡ false)
      × (le lim.max_daily_loss_pct (daily_loss_pct s req.account_balance) ≡ false)
      × ((lt nought lim.daily_profit_target && le lim.daily_profit_target s.daily_pnl) ≡ false)

  account_gate-HasRoom :
      (lim : RiskLimits F) (s : RiskState F) (req : Request F)
      → account_gate lim s req ≡ none
      → HasRoom lim s req
  unfolding account_gate
  account_gate-HasRoom lim s req h = ground arith

  open_gates :
      (m : RiskManager F) (s : RiskState F) (req : Request F)
      → first_veto m s req ≡ none
      → (calendar_gate m req ≡ none) × (throttle_gate m req ≡ none)
  unfolding first_veto Option.or_else
  open_gates m s req h = elim (Option-cases (account_gate m.limits s req)) [
    | inl passed ↦ elim (Option-cases (calendar_gate m req)) [
      | inl quiet ↦ (quiet, rw (passed, quiet) at h)
      | inr (r, closed) ↦ cc (rw (passed, closed) at h)
    ]
    | inr (r, closed) ↦ cc (rw closed at h)
  ]

  from_sizer :
      (m : RiskManager F) (req : Request F) (r : Result F) (d : RiskDecision F)
      → (r >>= λ lots. ok (finish m req lots)) ≡ ok d
      → (lots : F) × (r ≡ ok lots) × (finish m req lots ≡ d)
  from_sizer m req (ok lots) d h = (lots, refl, cc h)
  from_sizer m req (err e) d h = cc h

  -- The lots behind an approval.
  assess-lots :
      (m : RiskManager F) (sizer : LotSizer F) (s : RiskState F) (req : Request F)
      (d : RiskDecision F)
      → assess m sizer s req ≡ ok d
      → first_veto m s req ≡ none
      → (lots : F) × (sizer req.account_balance
            (effective_risk m.limits req)
            req.stop_distance_pips
            req.symbol
          ≡ ok lots)
        × (finish m req lots ≡ d)
  unfolding assess
  assess-lots m sizer s req d h clear =
      from_sizer m req
        (sizer req.account_balance (effective_risk m.limits req) req.stop_distance_pips req.symbol)
        d (rw clear at h)

  finish-approved :
      (m : RiskManager F) (req : Request F) (lots : F) (pol : PropFirmPolicy F)
      (st : PropFirmState F)
      → m.propfirm_guard ≡ some (pol, some st)
      → (finish m req lots).approved ≡ true
      → (le lots nought ≡ false)
        × (check pol (some st) (lt nought req.stop_distance_pips) lots).approved ≡ true
        × ((finish m req lots).lot_size ≡ some lots)
  unfolding finish
  finish-approved m req lots pol st g h = rw g (ground arith)

  -- The lot sizer that the bot passes; `pip_value` is the value per lot of a symbol.
  abbrev pub sized_by : (String → F) → LotSizer F
  sized_by pip_value balance risk stop symbol =
      lot_size_from_risk default_lots balance risk stop (pip_value symbol)

  -- The lots that the risk budget of the request buys, before they are stepped.
  abbrev pub budget : (String → F) → RiskLimits F → Request F → F
  budget pip_value lim req =
      div (mul req.account_balance (effective_risk lim req))
        (mul req.stop_distance_pips (pip_value req.symbol))

  abbrev pub IsSafe :
      RiskManager F
      → (String → F)
      → BlackoutPolicy × EventTable
      → ThrottlePolicy F × PairTable F
      → PropFirmPolicy F × PropFirmState F
      → SignalType
      → List (OpenPosition F)
      → Request F
      → RiskState F
      → F
      → Type 0
  IsSafe m pip_value (bpol, table) (tpol, pairs) (fpol, st) side positions req s lots =
      HasRoom m.limits s req
      × All (λ e. ¬ IsBlocking bpol (currencies_for_symbol req.symbol) req.blackout_at e) table
      × IsUncorrelated tpol pairs req.symbol side (effective_risk m.limits req) positions
      × IsPermitted fpol st (lt nought req.stop_distance_pips) lots
      × (le lots nought ≡ false)
      × (lots ≼ lit 100 0)
      × (lots ≼ budget pip_value m.limits req)

  positive_within :
      (raw lots : F)
      → IsNumber nought
      → le lots nought ≡ false
      → IsWithin default_lots raw lots
      → (lots ≼ lit 100 0) × (lots ≼ raw)
  positive_within raw lots n positive h = elim h [
    | inl none_left ↦ absurd (ground (arith, none_left, n, positive))
    | inr within ↦ within
  ]

  no_event :
      (pol : BlackoutPolicy) (ccys : List String) (now : ℕ) (table : EventTable)
      (o : Option CalendarEvent)
      → by_event {F = F} o ≡ none
      → IsVerdict pol ccys now table o
      → All (λ e. ¬ IsBlocking pol ccys now e) table
  no_event pol ccys now table none h verdict = verdict
  no_event pol ccys now table (some e) h verdict = cc h

  calendar_gate-quiet :
      (m : RiskManager F) (req : Request F) (pol : BlackoutPolicy) (table : EventTable)
      → m.blackout_checker ≡ some (pol, table)
      → pol.enabled ≡ true
      → calendar_gate m req ≡ none
      → All (λ e. ¬ IsBlocking pol (currencies_for_symbol req.symbol) req.blackout_at e) table
  unfolding calendar_gate
  calendar_gate-quiet m req pol table b on h =
      no_event pol (currencies_for_symbol req.symbol) req.blackout_at table
        (current_blackout pol table req.symbol req.blackout_at) (rw b at h)
        (current_blackout-IsVerdict pol table req.symbol req.blackout_at on)

  throttle_gate-calm :
      (m : RiskManager F) (req : Request F) (pol : ThrottlePolicy F) (pairs : PairTable F)
      (side : SignalType) (positions : List (OpenPosition F))
      → m.portfolio_throttle ≡ some (pol, pairs)
      → req.side ≡ some side
      → req.open_positions ≡ some positions
      → throttle_gate m req ≡ none
      → IsUncorrelated pol pairs req.symbol side (effective_risk m.limits req) positions
  unfolding throttle_gate throttle_with
  throttle_gate-calm m req pol pairs side positions t hs ps h =
      let risk = effective_risk m.limits req in
      let h' = rw (t, hs, ps) at h in
      decide-IsUncorrelated pol pairs req.symbol side risk positions (ground (arith, h'))

  module _ (laws : IsOrdered F) (floored : IsFloored F) where
    -- With a blackout checker that is enabled, a throttle, a prop-firm guard with its row, and the
    -- risk-based lot sizer, an approved decision comes with lots that are positive, at most 100 and
    -- within the risk budget, at a time when every limit of the account has room, no news event
    -- blocks the symbol, the heat with the new risk is not above the limit of the throttle if that is
    -- enabled and other positions are open, and the challenge account is alive and permits the order;
    -- provided 0 and 100 are numbers, 0.01 is above 0, the budget is at most 10¹⁵ steps of 0.01, and
    -- rounding the stepped lots to cents does not raise them.
    pub approved_trade-IsSafe :
        (m : RiskManager F) (pip_value : String → F) (news : BlackoutPolicy × EventTable)
        (correlated : ThrottlePolicy F × PairTable F)
        (challenge : PropFirmPolicy F × PropFirmState F) (side : SignalType)
        (positions : List (OpenPosition F)) (req : Request F) (s : RiskState F) (d : RiskDecision F)
        → m.blackout_checker ≡ some news
        → news.0.enabled ≡ true
        → m.portfolio_throttle ≡ some correlated
        → m.propfirm_guard ≡ some (challenge.0, some challenge.1)
        → req.side ≡ some side
        → req.open_positions ≡ some positions
        → IsNumber nought
        → nought ≺ lit 1 2
        → IsNumber (lit 100 0)
        → IsSmall (budget pip_value m.limits req) (lit 1 2)
        → (let stepped = stepped_of default_lots (budget pip_value m.limits req) in
            round_cents stepped ≼ stepped)
        → (evaluate m (sized_by pip_value) req s).0 ≡ ok d
        → d.approved ≡ true
        → (lots : F) × (d.lot_size ≡ some lots)
          × IsSafe m pip_value news correlated challenge side positions req
              (evaluate m (sized_by pip_value) req s).1
              lots
    unfolding evaluate
    approved_trade-IsSafe m pip_value news correlated challenge side positions req s d b on t g hs
          ps n step top small_raw rounds h approves =
        let s' = daily_reset_if_needed (date req.reset_at) s in
        let clear = approved-first_veto m (sized_by pip_value) s' req d h approves in
        let (quiet, calm) = open_gates m s' req clear in
        let (lots, sized, made) = assess-lots m (sized_by pip_value) s' req d h clear in
        let (positive, permitted, carried) =
          finish-approved m req lots challenge.0 challenge.1 g (rw made approves) in
        let fits =
          lot_size_from_risk-IsSized laws floored default_lots req.account_balance
            (effective_risk m.limits req) req.stop_distance_pips (pip_value req.symbol) step top
            small_raw rounds in
        let (in_max, in_budget) = positive_within _ lots n positive (rw sized at fits) in
        (
          lots,
          rw (sym made) carried,
          (
            account_gate-HasRoom m.limits s' req (first_veto-account_gate m s' req clear),
            calendar_gate-quiet m req news.0 news.1 b on quiet,
            throttle_gate-calm m req correlated.0 correlated.1 side positions t hs ps calm,
            check-IsPermitted challenge.0 challenge.1 _ lots permitted,
            positive,
            in_max,
            in_budget,
          ),
        )
