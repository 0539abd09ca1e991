-- ===== src/Mt5/Closing.antt =====
-- Closing a position of the live executor, and what the broker's history says of it: `close`,
-- `fetch_close_info` and `_compute_pnl` of src/execution/mt5_live.py.
use forex_ea.Prelude.{
  ℕ, Option, none, some, List, [], ◌∷◌, String, select, foldl, ltb, not, if◌then◌else◌,
}
use forex_ea.Float.{Float}
use forex_ea.Execution.{Order, OrderStatus, is_buy, is_sell}
use forex_ea.Risk.Sizing.{Pips}
use forex_ea.Journal.{CloseInfo}
use forex_ea.Mt5.{Terminal, Deal, Tick, Position, Request, SendResult, reject, resolve_filling_mode}
use forex_ea.Mt5.Comments.{build_close_comment}

module _ {F : Type 0} ⦃f : Float F⦄ where
  open f use {nought, add, sub, mul, div, neg, le}

  module _ {T : Type 0} (mt5 : Terminal F T) where
    abbrev pub sum_deals : List (Deal F) → F
    sum_deals deals =
        foldl (λ total (d : Deal F). add total (add (add d.profit d.swap) d.commission)) nought
          deals

    abbrev out_deals : List (Deal F) → List (Deal F)
    out_deals deals = select (λ (d : Deal F). d.is_out) deals

    -- The deal of the greatest time, the first of equals.
    abbrev last_deal : Deal F → List (Deal F) → Deal F
    last_deal d [] = d
    last_deal d (e ∷ deals) = if ltb d.time e.time then last_deal e deals else last_deal d deals

    abbrev pub close_info_of : List (Deal F) → Option (CloseInfo F)
    close_info_of [] = none
    close_info_of (d ∷ deals) =
        let last = last_deal d deals in
        some
          (record { exit_price = last.price; closed_at = last.time; pnl = sum_deals (d ∷ deals) })

    abbrev from_history : Option (List (Deal F)) → Option (CloseInfo F)
    from_history none = none
    from_history (some deals) = close_info_of (out_deals deals)

    pub fetch_close_info : ℕ → T → Option (CloseInfo F)
    fetch_close_info ticket t = from_history (mt5.history_deals_get ticket t)

    pub estimate_pnl_from_pip : Pips F → Order F → Option F → F
    estimate_pnl_from_pip pips o none = nought
    estimate_pnl_from_pip pips o (some exit_price) =
        let raw = sub exit_price o.entry_price in
        let diff = if is_sell o.side then neg raw else raw in
        let ps = pips.size_of o.symbol in
        if le ps nought then nought else mul (div diff ps) (pips.value_of o.symbol o.lot_size)

    abbrev pnl_from : Pips F → Order F → List (Deal F) → F
    pnl_from pips o [] = estimate_pnl_from_pip pips o o.exit_price
    pnl_from pips o (d ∷ deals) = sum_deals (d ∷ deals)

    abbrev pnl_history : Pips F → Order F → Option (List (Deal F)) → F
    pnl_history pips o none = estimate_pnl_from_pip pips o o.exit_price
    pnl_history pips o (some deals) = pnl_from pips o (out_deals deals)

    -- The order has its exit price and its ticket.
    pub compute_pnl : Pips F → Order F → ℕ → T → F
    unfolding estimate_pnl_from_pip
    compute_pnl pips o ticket t = pnl_history pips o (mt5.history_deals_get ticket t)

    abbrev pub settled : Pips F → Order F → ℕ → String → Option (SendResult F) × T → Order F × T
    settled pips o ticket reason (none, t) = (reject o "close rejected", t)
    settled pips o ticket reason (some r, t) =
        let closed = record o {
          closed_at = some (mt5.utc_now t);
          status = OrderStatus.closed;
          exit_price = some r.price;
          close_reason = reason;
        } in
        if r.done
        then (record closed { pnl = compute_pnl pips closed ticket t }, t)
        else (reject o "close rejected", t)

    abbrev pub close_at : Pips F → Order F → ℕ → String → F → Option (Tick F) → T → Order F × T
    close_at pips o ticket reason live_volume none t =
        (reject o "symbol_info_tick returned None", t)
    close_at pips o ticket reason live_volume (some tick) t = settled pips o ticket reason (
        mt5.order_send
          (Request.close_deal o.symbol live_volume (not (is_buy o.side)) ticket
            (if is_buy o.side then tick.bid else tick.ask) (build_close_comment reason o.pnl)
            (resolve_filling_mode mt5 o.symbol t))
          t)

    -- By what the terminal says of the position.
    abbrev pub close_position :
        Pips F → Order F → ℕ → String → Option (List (Position F)) → T → Order F × T
    close_position pips o ticket reason none t = (reject o "positions_get unavailable", t)
    close_position pips o ticket reason (some []) t = (reject o "position no longer open", t)
    close_position pips o ticket reason (some (p ∷ ps)) t =
        if le p.volume nought
        then (reject o "position has zero volume", t)
        else close_at pips o ticket reason p.volume (mt5.symbol_info_tick o.symbol t) t

    abbrev pub close_ticket : Pips F → Order F → String → Option ℕ → T → Order F × T
    close_ticket pips o reason none t = (reject o "close() called without broker_ticket", t)
    close_ticket pips o reason (some ticket) t =
        close_position pips o ticket reason (mt5.position_of ticket t) t

    unfoldable pub close : Pips F → Order F → String → T → Order F × T
    unfolding compute_pnl
    close pips o reason t = close_ticket pips o reason o.broker_ticket t
