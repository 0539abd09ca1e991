-- ===== src/Bot/Opening.antt =====
-- Acting on a signal: `_handle_signal` of src/bot.py. The explanation store is written only on the way
-- and is left out.
pub mod Stored
pub mod Once
use forex_ea.Prelude.{
  ℕ, ◌+◌, Bool, true, false, Option, none, some, List, [], ◌∷◌, ◌++◌, String, not, ◌&&◌, ◌||◌, map,
  if◌then◌else◌,
}
use forex_ea.Table.{Table, lookup, ◌==◌, string_eq, pair_eq}
use forex_ea.Result.{Result, ok, err}
use forex_ea.Float.{Float}
use forex_ea.Execution.{Order, OrderStatus, Extra, Signal, SignalType, same_type}
use forex_ea.Correlation.{OpenPosition}
use forex_ea.PropFirm.{PropFirmPolicy, Store, note_trade_opened}
use forex_ea.Risk.Sizing.{Pips, divide, lot_size_from_risk, default_lots}
use forex_ea.Risk.Manager.{
  RiskManager, RiskState, RiskDecision, Request, LotSizer, evaluate, register_trade_opened,
}
use forex_ea.Controls.SignalDedup.{DedupTable, already_acted, remember}
use forex_ea.Controls.Toggles.{ToggleTable, get_mode, mode_execute, mode_signal}
use forex_ea.Fills.{FillEvent, record_fill}
use forex_ea.Journal.{Journal, coalesce, record_open}
use forex_ea.Bot.{Bot, Executor, Clock, Message, Gate, DedupAnswer}
use forex_ea.Bot.Alerts.{send_signal_alert, send_setup_alert}

abbrev pub is_rejected : OrderStatus → Bool
is_rejected OrderStatus.rejected = true
is_rejected _ = false

abbrev pub strategy_mode : String → Option ToggleTable → String
strategy_mode name none = mode_execute
strategy_mode name (some table) = get_mode name table

module _ {F : Type 0} ⦃f : Float F⦄ where
  open f use {nought, sub, mul, div, abs, le, lit}

  -- `lot_size_from_risk` as the manager calls it.
  abbrev pub lot_sizer : Pips F → LotSizer F
  lot_sizer pips balance risk stop symbol =
      lot_size_from_risk default_lots balance risk stop (pips.value_of symbol (lit 1 0))

  pub compute_actual_risk_pct : Pips F → Order F → F → F
  compute_actual_risk_pct pips o balance =
      let ps = pips.size_of o.symbol in
      let per_lot_risk =
        mul (div (abs (sub o.entry_price o.stop_loss)) ps) (pips.value_of o.symbol (lit 1 0)) in
      if le ps nought || le balance nought
      then nought
      else div (mul per_lot_risk o.lot_size) balance

  abbrev pub note_opened : ℕ → RiskManager F → RiskManager F
  note_opened now m = elim m.propfirm_guard [
    | none ↦ m
    | some (pol, store) ↦ record m { propfirm_guard = some (pol, note_trade_opened now store) }
  ]

  -- `already_acted`, and `remember` where it says no. An exception of either is logged, and the signal
  -- goes on with the table as it was.
  abbrev pub first_on_bar :
      DedupAnswer → String → Signal F → Option DedupTable → Bool × Option DedupTable
  first_on_bar a name sig none = (true, none)
  first_on_bar DedupAnswer.check_raises name sig (some table) = (true, some table)
  first_on_bar DedupAnswer.remember_raises name sig (some table) =
      (not (already_acted name sig.symbol sig.timestamp table), some table)
  first_on_bar DedupAnswer.answers name sig (some table) =
      if already_acted name sig.symbol sig.timestamp table
      then (false, some table)
      else (true, some (remember name sig.symbol sig.timestamp sig.type table))

  abbrev pub positions : F → List (Order F) → List (OpenPosition F)
  positions risk_pct orders =
      map (λ (o : Order F). record { symbol = o.symbol; side = o.side; risk_pct = risk_pct }) orders

  -- The side of the first position on the symbol that is opposite to the signal.
  abbrev pub opposite : Signal F → List (OpenPosition F) → Option SignalType
  opposite sig [] = none
  opposite sig (p ∷ ps) =
      if p.symbol == sig.symbol && not (same_type p.side sig.type)
      then some p.side
      else opposite sig ps

  abbrev pub order_of : Signal F → String → F → F → F → F → Option String → ℕ → Order F
  order_of sig name sl tp lots weight regime now = record {
    id = 0;
    symbol = sig.symbol;
    side = sig.type;
    lot_size = lots;
    entry_price = sig.price;
    stop_loss = sl;
    take_profit = tp;
    opened_at = now;
    strategy = name;
    status = OrderStatus.open_status;
    exit_price = none;
    closed_at = none;
    pnl = nought;
    close_reason = "";
    broker_ticket = none;
    extra = record {
      peak_price = none;
      initial_stop_loss = some sl;
      risk_weight = some weight;
      booked_risk_pct = none;
      regime = regime;
    };
  }

  abbrev with_booked : F → Order F → Order F
  with_booked booked o = record o { extra = record (o.extra) { booked_risk_pct = some booked } }

  module _ {E : Type 0} (ex : Executor F E) (pips : Pips F) (clk : Clock F) where
    abbrev say_opened : Order F → String → Bot F E → Bot F E
    say_opened o name b =
        if b.notifies
        then record b { messages = b.messages ++ Message.trade_opened o name ∷ [] }
        else b

    -- Behind `journal.record_open`, which may raise.
    abbrev pub book : String → Order F → F → Result (Journal F) → Bot F E → Result Bool × Bot F E
    book name o balance (err raised) b = (err raised, b)
    book name o balance (ok j) b =
        let booked = compute_actual_risk_pct pips o balance in
        (
          ok true,
          say_opened o name (record b {
            journal = j;
            executor = ex.shared (with_booked booked o) b.executor;
            risk_state = register_trade_opened booked b.risk_state;
            risk = note_opened clk.noted_at b.risk;
          }),
        )

    abbrev pub placed : String → Order F → F → Bot F E → Result Bool × Bot F E
    placed name o balance b =
        if is_rejected o.status
        then (ok false, b)
        else book name o balance (record_open o b.journal) b

    abbrev pub place_at : String → F → Order F → Result F → Bot F E → Result Bool × Bot F E
    place_at name requested order (err raised) b = (err raised, b)
    place_at name requested order (ok balance) b =
        let (o, e) = ex.place order b.executor in
        placed name o balance (record b {
          executor = e;
          fill_store =
              record_fill o FillEvent.open_event requested clk.latency_ms clk.filled_at
                b.fill_store;
        })

    -- What follows the manager's decision.
    abbrev pub act_on :
        String
        → Option String
        → Signal F
        → F
        → F
        → F
        → Result (RiskDecision F)
        → Bot F E
        → Result Bool × Bot F E
    act_on name regime sig sl tp weight (err raised) b = (err raised, b)
    act_on name regime sig sl tp weight (ok d) b =
        if d.approved
        then place_at name sig.price
            (order_of sig name sl tp (coalesce d.lot_size nought) weight regime clk.opened_at)
            (ex.account_balance b.executor) b
        else (
          ok false,
          send_setup_alert name sig.symbol sig.type (Gate.risk_manager d.reason) clk.alerted_at b,
        )

    abbrev pub request_of : Signal F → F → F → F → Bot F E → Request F
    request_of sig weight balance stop_distance b = record {
      account_balance = balance;
      stop_distance_pips = stop_distance;
      symbol = sig.symbol;
      side = some sig.type;
      open_positions = some (positions b.risk.limits.risk_per_trade (ex.open_orders b.executor));
      risk_multiplier = weight;
      reset_at = clk.reset_at;
      blackout_at = clk.blackout_at;
    }

    -- The balance is asked for after the stop distance is computed; either may raise.
    abbrev pub assess :
        String
        → Option String
        → Signal F
        → F
        → F
        → F
        → Result F
        → Result F
        → Bot F E
        → Result Bool × Bot F E
    assess name regime sig sl tp weight (err raised) balance b = (err raised, b)
    assess name regime sig sl tp weight (ok stop_distance) (err raised) b = (err raised, b)
    assess name regime sig sl tp weight (ok stop_distance) (ok balance) b =
        let (d, s) =
          evaluate b.risk (lot_sizer pips) (request_of sig weight balance stop_distance b)
            b.risk_state in
        act_on name regime sig sl tp weight d (record b { risk_state = s })

    abbrev pub unless_opposite :
        String
        → Option String
        → Signal F
        → F
        → F
        → Option SignalType
        → Bot F E
        → Result Bool × Bot F E
    unless_opposite name regime sig sl tp (some side) b = (
      ok false,
      send_setup_alert name sig.symbol sig.type (Gate.opposite_side side) clk.alerted_at b,
    )
    unless_opposite name regime sig sl tp none b =
        let (role, weight) =
          coalesce (lookup (name, sig.symbol) b.allocations) ("unmanaged", lit 1 0) in
        assess name regime sig sl tp weight
          (divide (abs (sub sig.price sl)) (pips.size_of sig.symbol))
          (ex.account_balance b.executor) b

    abbrev pub by_mode : String → Option String → Signal F → F → F → Bot F E → Result Bool × Bot F E
    by_mode name regime sig sl tp b =
        if strategy_mode name b.toggle_store == mode_signal
        then (ok false, send_signal_alert sig name clk.alerted_at b)
        else unless_opposite name regime sig sl tp
            (opposite sig (positions b.risk.limits.risk_per_trade (ex.open_orders b.executor))) b

    abbrev pub if_first :
        String
        → Option String
        → Signal F
        → F
        → F
        → Bool × Option DedupTable
        → Bot F E
        → Result Bool × Bot F E
    if_first name regime sig sl tp (true, table) b =
        by_mode name regime sig sl tp (record b { signal_dedup_store = table })
    if_first name regime sig sl tp (false, table) b = (ok false, b)

    abbrev pub on_levels :
        String → Option String → Signal F → Option F → Option F → Bot F E → Result Bool × Bot F E
    on_levels name regime sig (some sl) (some tp) b =
        if_first name regime sig sl tp (first_on_bar clk.dedup name sig b.signal_dedup_store) b
    on_levels name regime sig _ _ b = (ok false, b)

    -- `regime` is the trend of the snapshot, if the bot classifies.
    unfoldable pub handle_signal :
        String → Option String → Signal F → Bot F E → Result Bool × Bot F E
    handle_signal name regime sig b = on_levels name regime sig sig.stop_loss sig.take_profit b
