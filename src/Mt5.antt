-- ===== src/Mt5.antt =====
-- The live executor: `MT5Executor` of src/execution/mt5_live.py, built without the callback that
-- reconnects. The MetaTrader terminal is a parameter: what its calls return, `none` for None and for a
-- call that raises where the code catches it. The numbers in a rejection's text are left out.
pub mod Comments
pub mod Closing
pub mod Positions
pub mod Broker
pub mod Margin
use forex_ea.Prelude.{
  ℕ, zero, suc, Bool, true, false, Option, none, some, List, [], ◌∷◌, ◌++◌, String, map, select,
  foldl, nat_beq, ltb, not, ◌&&◌, ◌||◌, if◌then◌else◌, is_empty,
}
use forex_ea.Table.{◌==◌, string_eq}
use forex_ea.Result.{Result, ok, err, Raised}
use forex_ea.Float.{Float}
use forex_ea.Execution.{Order, OrderStatus, Extra, SignalType, is_buy, is_sell}
use forex_ea.Risk.Sizing.{Pips}
use forex_ea.Journal.{CloseInfo}
use forex_ea.Bot.{Executor}
use forex_ea.Bot.Opening.{is_rejected}
use forex_ea.Mt5.Comments.{build_open_comment, build_close_comment, strategy_from_comment}

pub record AccountInfo (F : Type 0) : Type 0 where
  pub balance : F
  pub equity : F
  pub margin_free : F

-- The fields of `symbol_info(symbol)` that are read here, a missing or zero step or minimum replaced.
pub record SymbolSpec (F : Type 0) : Type 0 where
  pub volume_step : F
  pub volume_min : F
  pub filling_fok : Bool
  pub filling_ioc : Bool

pub record Tick (F : Type 0) : Type 0 where
  pub ask : F
  pub bid : F

pub record Position (F : Type 0) : Type 0 where
  pub ticket : ℕ
  pub magic : ℕ
  pub symbol : String
  pub is_long : Bool
  pub volume : F
  pub price_open : F
  pub sl : F
  pub tp : F
  pub time : ℕ
  pub comment : List ℕ

-- A deal of a position; `is_out` says that its entry is OUT or INOUT.
pub record Deal (F : Type 0) : Type 0 where
  pub is_out : Bool
  pub time : ℕ
  pub price : F
  pub profit : F
  pub swap : F
  pub commission : F

pub data Filling : Type 0 where
  fok ioc : Filling

-- What `order_send` is sent: a deal, on a position if it closes one, or new levels.
pub data Request (F : Type 0) : Type 0 where
  open_deal : String → F → Bool → F → F → F → List ℕ → Filling → Request F
  close_deal : String → F → Bool → ℕ → F → List ℕ → Filling → Request F
  levels : String → ℕ → F → F → Request F

-- The ticket is the order's, or the deal's where that is 0; `done` is the return code's test.
pub record SendResult (F : Type 0) : Type 0 where
  pub done : Bool
  pub order : ℕ
  pub deal : ℕ
  pub price : F

pub record Terminal (F T : Type 0) : Type 0 where
  pub account_info : T → Option (AccountInfo F)
  pub symbol_info : String → T → Option (SymbolSpec F)
  pub symbol_info_tick : String → T → Option (Tick F)
  pub order_calc_margin : Bool → String → F → T → Option F
  pub positions_get : T → Option (List (Position F))
  pub position_of : ℕ → T → Option (List (Position F))
  pub order_send : Request F → T → Option (SendResult F) × T
  pub history_deals_get : ℕ → T → Option (List (Deal F))
  pub utc_now : T → ℕ

module _ {F : Type 0} ⦃f : Float F⦄ where
  open f use {nought, add, sub, mul, div, floor_div, neg, lt, le, lit}

  abbrev pub reject : Order F → String → Order F
  reject o reason = record o { status = OrderStatus.rejected; close_reason = reason }

  -- The lots that the free margin carries, less a tenth, by the broker's step.
  abbrev pub max_lot_of : SymbolSpec F → AccountInfo F → F → F
  max_lot_of info acct margin_per_lot =
      let max_lot = div (mul acct.margin_free (lit 9 1)) margin_per_lot in
      mul (floor_div max_lot info.volume_step) info.volume_step

  abbrev pub scale : Order F → SymbolSpec F → F → Order F
  scale o info max_lot =
      if lt max_lot info.volume_min
      then reject o "insufficient margin"
      else if lt max_lot o.lot_size
      then record o { lot_size = max_lot }
      else o

  abbrev pub fit : Order F → Option (SymbolSpec F) → Option (AccountInfo F) → Option F → Order F
  fit o (some info) (some acct) (some margin_per_lot) =
      if le margin_per_lot nought
      then o
      else if le acct.margin_free nought
      then reject o "no free margin"
      else scale o info (max_lot_of info acct margin_per_lot)
  fit o _ _ _ = o

  module _ {T : Type 0} (mt5 : Terminal F T) where
    pub account_balance : T → Result F
    account_balance t = elim (mt5.account_info t) [
      | none ↦ err Raised.runtime_error
      | some info ↦ ok info.balance
    ]

    unfoldable pub fit_to_margin : Order F → F → T → Order F
    fit_to_margin o price t =
        fit o (mt5.symbol_info o.symbol t) (mt5.account_info t)
          (mt5.order_calc_margin (is_buy o.side) o.symbol price t)

    abbrev filling_of : Option (SymbolSpec F) → Filling
    filling_of none = Filling.fok
    filling_of (some info) =
        if info.filling_fok
        then Filling.fok
        else if info.filling_ioc
        then Filling.ioc
        else Filling.fok

    pub resolve_filling_mode : String → T → Filling
    resolve_filling_mode symbol t = filling_of (mt5.symbol_info symbol t)

    -- `result.order`, or `result.deal` where it is 0
    abbrev ticket_of : SendResult F → ℕ
    ticket_of r = if nat_beq r.order 0 then r.deal else r.order

    abbrev filled : Order F → Option (SendResult F) × T → Order F × T
    filled o (none, t) = (reject o "order_send returned None", t)
    filled o (some r, t) =
        if r.done
        then (
          record o {
            broker_ticket = some (ticket_of r);
            id = ticket_of r;
            entry_price = r.price;
            status = OrderStatus.open_status;
          },
          t,
        )
        else (reject o "retcode", t)

    abbrev send_open : Order F → F → T → Order F × T
    send_open o price t =
        if is_rejected o.status
        then (o, t)
        else filled o (
            mt5.order_send
              (Request.open_deal o.symbol o.lot_size (is_buy o.side) price o.stop_loss o.take_profit
                (build_open_comment o.strategy o.side o.extra.regime)
                (resolve_filling_mode o.symbol t))
              t)

    abbrev place_at : Order F → Option (Tick F) → T → Order F × T
    place_at o none t = (reject o "symbol_info_tick returned None", t)
    place_at o (some tick) t =
        let price = if is_buy o.side then tick.ask else tick.bid in
        send_open (fit_to_margin o price t) price t

    unfoldable pub place : Order F → T → Order F × T
    unfolding fit_to_margin resolve_filling_mode
    place o t = place_at o (mt5.symbol_info_tick o.symbol t) t

    abbrev or_kept : Option F → F → F
    or_kept none old = old
    or_kept (some new) old = new

    abbrev accepted : Order F → F → F → Option (SendResult F) × T → Order F × T
    accepted o sl tp (none, t) = (o, t)
    accepted o sl tp (some r, t) =
        (if r.done then record o { stop_loss = sl; take_profit = tp } else o, t)

    abbrev modify_ticket : Order F → F → F → Option ℕ → T → Order F × T
    modify_ticket o sl tp none t = (o, t)
    modify_ticket o sl tp (some ticket) t =
        accepted o sl tp (mt5.order_send (Request.levels o.symbol ticket sl tp) t)

    pub modify : Order F → Option F → Option F → T → Order F × T
    modify o stop_loss take_profit t =
        modify_ticket o (or_kept stop_loss o.stop_loss) (or_kept take_profit o.take_profit)
          o.broker_ticket t
