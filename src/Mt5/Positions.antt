-- ===== src/Mt5/Positions.antt =====
-- The positions of the live executor as orders, and the executor as the bot sees it: `open_orders` and
-- `list_open_position_tickets` of src/execution/mt5_live.py.
use forex_ea.Prelude.{
  ℕ, Bool, false, Option, none, some, List, [], ◌∷◌, String, map, select, nat_beq, ◌&&◌, ◌||◌,
  if◌then◌else◌, is_empty,
}
use forex_ea.Table.{◌==◌, string_eq}
use forex_ea.Float.{Float}
use forex_ea.Execution.{Order, OrderStatus, SignalType}
use forex_ea.Risk.Sizing.{Pips}
use forex_ea.Bot.{Executor}
use forex_ea.Mt5.{Terminal, Position, account_balance, modify, place}
use forex_ea.Mt5.Closing.{close}
use forex_ea.Mt5.Comments.{strategy_from_comment}

abbrev pub listed_symbol : List String → String → Bool
listed_symbol [] symbol = false
listed_symbol (s ∷ ss) symbol = s == symbol || listed_symbol ss symbol

module _ {F : Type 0} ⦃f : Float F⦄ where
  open f use {nought}

  abbrev pub order_of : Position F → Order F
  order_of p = record {
    id = p.ticket;
    symbol = p.symbol;
    side = if p.is_long then SignalType.buy else SignalType.sell;
    lot_size = p.volume;
    entry_price = p.price_open;
    stop_loss = p.sl;
    take_profit = p.tp;
    opened_at = p.time;
    strategy = strategy_from_comment p.comment;
    status = OrderStatus.open_status;
    exit_price = none;
    closed_at = none;
    pnl = nought;
    close_reason = "";
    broker_ticket = some p.ticket;
    extra = record {
      peak_price = none;
      initial_stop_loss = none;
      risk_weight = none;
      booked_risk_pct = none;
      regime = none;
    };
  }

  -- The bot's own positions; an empty filter lets every symbol pass.
  abbrev pub is_own : ℕ → List String → Position F → Bool
  is_own magic symbols_filter p =
      nat_beq p.magic magic && (is_empty symbols_filter || listed_symbol symbols_filter p.symbol)

  abbrev pub own_orders : ℕ → List String → Option (List (Position F)) → List (Order F)
  own_orders magic symbols_filter none = []
  own_orders magic symbols_filter (some ps) = map order_of (select (is_own magic symbols_filter) ps)

  abbrev tickets : Option (List (Position F)) → List ℕ
  tickets none = []
  tickets (some ps) = map (λ (p : Position F). p.ticket) ps

  module _ {T : Type 0} (mt5 : Terminal F T) where
    unfoldable pub open_orders : ℕ → List String → T → List (Order F)
    open_orders magic symbols_filter t = own_orders magic symbols_filter (mt5.positions_get t)

    pub list_open_position_tickets : T → List ℕ
    list_open_position_tickets t = tickets (mt5.positions_get t)

    -- The interface of the bot. The orders are built anew by each call, so what the bot writes to one
    -- is not seen later.
    unfoldable pub mt5_executor : ℕ → List String → Pips F → Executor F T
    unfolding open_orders
    mt5_executor magic symbols_filter pips = record {
      account_balance = account_balance mt5;
      open_orders = open_orders magic symbols_filter;
      place = place mt5;
      close = close mt5 pips;
      modify = modify mt5;
      shared = λ o t. t;
    }
