-- ===== src/Mt5/Broker.antt =====
-- What the live executor promises to the bot: src/execution/mt5_live.py against src/execution/base.py.
use forex_ea.Prelude.{
  ℕ, ◌≡◌, refl, true, Option, none, some, List, [], ◌∷◌, String, not, All, map, select, arith,
  if◌then◌else◌, Bool-cases, Option-cases, inl, inr, ◌⊎◌,
}
use forex_ea.Float.{Float}
use forex_ea.Execution.{Order, OrderStatus, is_buy}
use forex_ea.Risk.Sizing.{Pips}
use forex_ea.Risk.Manager.{RiskManager}
use forex_ea.Bot.{IsBroker}
use forex_ea.Bot.Opening.{is_rejected}
use forex_ea.Bot.Closing.{booked_risk}
use forex_ea.Mt5.Comments.{build_close_comment}
use forex_ea.Mt5.{
  Request, resolve_filling_mode, Terminal, Position, Tick, SendResult, place, place_at, send_open,
  filled, fit_to_margin,
}
use forex_ea.Mt5.Closing.{close, close_ticket, close_position, close_at, settled}
use forex_ea.Mt5.Positions.{mt5_executor, open_orders, order_of, is_own}

rejected_status : (s : OrderStatus) → is_rejected s ≡ true → s ≡ OrderStatus.rejected
rejected_status OrderStatus.rejected h = refl
rejected_status OrderStatus.open_status h = cc h
rejected_status OrderStatus.closed h = cc h

module _ {F : Type 0} ⦃f : Float F⦄ where
  open f use {nought, mul, le, lit}

  abbrev IsAnswer : Order F → Type 0
  IsAnswer o =
      (o.status ≡ OrderStatus.rejected)
      ⊎ ((o.status ≡ OrderStatus.open_status) × (o.broker_ticket ≡ some o.id))

  module _ {T : Type 0} (mt5 : Terminal F T) where
    filled-IsAnswer : (o : Order F) (r : Option (SendResult F) × T) → IsAnswer (filled mt5 o r).0
    filled-IsAnswer o (none, t) = inl refl
    filled-IsAnswer o (some r, t) = elim (Bool-cases r.done) [
      | inl done ↦ rw done (inr (refl, refl))
      | inr failed ↦ rw failed (inl refl)
    ]

    send_open-IsAnswer : (o : Order F) (price : F) (t : T) → IsAnswer (send_open mt5 o price t).0
    send_open-IsAnswer o price t = elim (Bool-cases (is_rejected o.status)) [
      | inl refused ↦ rw refused (inl (rejected_status o.status refused))
      | inr fits ↦ rw fits (filled-IsAnswer o _)
    ]

    place_at-IsAnswer :
        (o : Order F) (tick : Option (Tick F)) (t : T) → IsAnswer (place_at mt5 o tick t).0
    place_at-IsAnswer o none t = inl refl
    place_at-IsAnswer o (some tick) t =
        let price = if is_buy o.side then tick.ask else tick.bid in
        send_open-IsAnswer (fit_to_margin mt5 o price t) price t

    settled-id :
        (pips : Pips F) (o : Order F) (ticket : ℕ) (reason : String) (r : Option (SendResult F) × T)
        → (settled mt5 pips o ticket reason r).0.id ≡ o.id
    settled-id pips o ticket reason (none, t) = refl
    settled-id pips o ticket reason (some r, t) = ground arith

    close_at-id :
        (pips : Pips F) (o : Order F) (ticket : ℕ) (reason : String) (volume : F)
        (tick : Option (Tick F)) (t : T)
        → (close_at mt5 pips o ticket reason volume tick t).0.id ≡ o.id
    close_at-id pips o ticket reason volume none t = refl
    close_at-id pips o ticket reason volume (some tick) t =
        let price = if is_buy o.side then tick.bid else tick.ask in
        let deal =
          Request.close_deal o.symbol volume (not (is_buy o.side)) ticket price
            (build_close_comment reason o.pnl) (resolve_filling_mode mt5 o.symbol t) in
        settled-id pips o ticket reason (mt5.order_send deal t)

    close_position-id :
        (pips : Pips F) (o : Order F) (ticket : ℕ) (reason : String)
        (ps : Option (List (Position F))) (t : T)
        → (close_position mt5 pips o ticket reason ps t).0.id ≡ o.id
    close_position-id pips o ticket reason none t = refl
    close_position-id pips o ticket reason (some []) t = refl
    close_position-id pips o ticket reason (some (p ∷ ps)) t =
        elim (Bool-cases (le p.volume nought)) [
          | inl gone ↦ rw gone refl
          | inr live ↦
              rw live
                (close_at-id pips o ticket reason p.volume (mt5.symbol_info_tick o.symbol t) t)
        ]

    close_ticket-id :
        (pips : Pips F) (o : Order F) (reason : String) (ticket : Option ℕ) (t : T)
        → (close_ticket mt5 pips o reason ticket t).0.id ≡ o.id
    close_ticket-id pips o reason none t = refl
    close_ticket-id pips o reason (some ticket) t =
        close_position-id pips o ticket reason (mt5.position_of ticket t) t

    -- Whatever the terminal answers, an order that the live executor places is refused, or open under
    -- the broker's ticket, which is its key too; and an order that it closes keeps its key.
    pub mt5_executor-IsBroker :
        (magic : ℕ) (symbols_filter : List String) (pips : Pips F)
        → IsBroker (mt5_executor mt5 magic symbols_filter pips)
    unfolding mt5_executor place close
    mt5_executor-IsBroker magic symbols_filter pips = record {
      place_status = λ o t. place_at-IsAnswer o (mt5.symbol_info_tick o.symbol t) t;
      close_id = λ o reason t. close_ticket-id pips o reason o.broker_ticket t;
    }

    own_orders-budget :
        (m : RiskManager F) (magic : ℕ) (symbols_filter : List String) (ps : List (Position F))
        → All
            (λ (o : Order F). booked_risk m o ≡ mul m.limits.risk_per_trade (lit 1 0))
            (map order_of (select (is_own magic symbols_filter) ps))
    unfolding booked_risk
    own_orders-budget m magic symbols_filter [] = tt
    own_orders-budget m magic symbols_filter (p ∷ ps) =
        let rest = own_orders-budget m magic symbols_filter ps in
        elim (Bool-cases (is_own magic symbols_filter p)) [
          | inl own ↦ rw own (refl, rest)
          | inr foreign ↦ rw foreign rest
        ]

    -- The risk that closing any order which the live executor lists credits back is the whole budget per
    -- trade, at weight 1, whatever was booked when the trade was opened.
    pub open_orders-budget :
        (m : RiskManager F) (magic : ℕ) (symbols_filter : List String) (t : T)
        → All
            (λ (o : Order F). booked_risk m o ≡ mul m.limits.risk_per_trade (lit 1 0))
            (open_orders mt5 magic symbols_filter t)
    unfolding open_orders
    open_orders-budget m magic symbols_filter t = elim (Option-cases (mt5.positions_get t)) [
      | inl offline ↦ rw offline tt
      | inr (ps, listed) ↦ rw listed (own_orders-budget m magic symbols_filter ps)
    ]
