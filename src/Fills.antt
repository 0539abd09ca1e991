-- ===== src/Fills.antt =====
-- The log of fills: src/execution/fills.py, and `_record_fill` of src/bot.py, which writes it. Sides and
-- events are data types in place of their texts.
use forex_ea.Prelude.{
  ℕ, zero, suc, Bool, Option, none, some, List, [], ◌∷◌, ◌++◌, String, ◌&&◌, ◌||◌, if◌then◌else◌,
}
use forex_ea.Float.{Float}
use forex_ea.Table.{◌==◌, string_eq}
use forex_ea.Text.{codes, upper, contains, starts_with, ends_with}
use forex_ea.Execution.{Order, SignalType, is_sell}
use forex_ea.Journal.{is_open, is_closed}

-- The texts "OPEN" and "CLOSE".
pub data FillEvent : Type 0 where
  open_event close_event : FillEvent

pub record Fill (F : Type 0) : Type 0 where
  pub trade_id : Option ℕ
  pub symbol : String
  pub side : SignalType
  pub event : FillEvent
  pub requested_price : F
  pub filled_price : Option F
  pub slippage_pips : Option F
  pub latency_ms : F
  pub broker_ticket : Option ℕ
  -- "FILLED", not "REJECTED"
  pub is_filled : Bool
  pub reason : Option String
  pub filled_at : ℕ

-- `order.id or None`, and `order.close_reason or None`
abbrev pub nonzero : ℕ → Option ℕ
nonzero zero = none
nonzero (suc n) = some (suc n)

abbrev nonempty : String → Option String
nonempty s = if s == "" then none else some s

module _ {F : Type 0} ⦃f : Float F⦄ where
  open f use {sub, div, neg, lit}

  pub fill_pip_size : String → F
  fill_pip_size symbol =
      let s = upper (codes symbol) in
      if contains s (codes "JPY")
        || contains s (codes "XAU")
        || (ends_with s (codes "USD") && starts_with s (codes "XA"))
      then lit 1 2
      else lit 1 4

  pub signed_slippage_pips : String → SignalType → F → F → F
  signed_slippage_pips symbol side requested filled =
      let raw = sub filled requested in
      div (if is_sell side then neg raw else raw) (fill_pip_size symbol)

  abbrev is_done : FillEvent → Order F → Bool
  is_done FillEvent.open_event o = is_open o.status
  is_done FillEvent.close_event o = is_closed o.status

  abbrev price_at : FillEvent → Order F → Option F
  price_at FillEvent.open_event o = some o.entry_price
  price_at FillEvent.close_event o = o.exit_price

  abbrev slippage_of : Order F → F → Option F → Option F
  slippage_of o requested none = none
  slippage_of o requested (some filled) =
      some (signed_slippage_pips o.symbol o.side requested filled)

  abbrev fill_of : Order F → FillEvent → F → F → ℕ → Fill F
  fill_of o event requested latency_ms now =
      let filled_price = if is_done event o then price_at event o else none in
      record {
        trade_id = nonzero o.id;
        symbol = o.symbol;
        side = o.side;
        event = event;
        requested_price = requested;
        filled_price = filled_price;
        slippage_pips = slippage_of o requested filled_price;
        latency_ms = latency_ms;
        broker_ticket = o.broker_ticket;
        is_filled = is_done event o;
        reason = nonempty o.close_reason;
        filled_at = now;
      }

  -- Without a store, nothing is kept.
  pub record_fill :
      Order F → FillEvent → F → F → ℕ → Option (List (Fill F)) → Option (List (Fill F))
  record_fill o event requested latency_ms now none = none
  record_fill o event requested latency_ms now (some fills) =
      some (fills ++ fill_of o event requested latency_ms now ∷ [])
