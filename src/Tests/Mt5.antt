-- ===== src/Tests/Mt5.antt =====
-- A terminal that fills every request, and an order that its margin does not carry whole.
use forex_ea.Prelude.{ℕ, suc, ◌≡◌, refl, true, false, none, some, [], ◌∷◌, All}
use forex_ea.Prelude.Int.{ℤ, pos}
use forex_ea.Float.Fixed.{fixed_float, Fixed-IsOrdered}
use forex_ea.Execution.{Order}
use forex_ea.Risk.Sizing.{Pips}
use forex_ea.Bot.{IsBroker}
use forex_ea.Bot.Closing.{booked_risk}
use forex_ea.Mt5.{Terminal, Position, AccountInfo, SymbolSpec, fit_to_margin, max_lot_of}
use forex_ea.Mt5.Positions.{mt5_executor, open_orders}
use forex_ea.Mt5.Broker.{mt5_executor-IsBroker, open_orders-budget}
use forex_ea.Mt5.Margin.{IsFitted, fit_to_margin-IsFitted}
use forex_ea.Tests.Execution.{buy_order}
use forex_ea.Tests.Risk.{manager}

abbrev pub pips : Pips ℤ
pips = record { size_of = λ symbol. pos 1; value_of = λ symbol lots. pos 100_000 }

abbrev account : AccountInfo ℤ
account = record { balance = pos 100_000_000; equity = pos 100_000_000; margin_free = pos 100_000 }

abbrev spec : SymbolSpec ℤ
spec = record {
  volume_step = pos 100;
  volume_min = pos 100;
  filling_fok = true;
  filling_ioc = false;
}

abbrev position : Position ℤ
position = record {
  ticket = 7;
  magic = 42;
  symbol = "GBPUSD";
  is_long = true;
  volume = pos 1_000;
  price_open = pos 12_500;
  sl = pos 12_400;
  tp = pos 12_800;
  time = 5;
  comment = [];
}

-- The state counts the requests that it was sent.
abbrev pub terminal : Terminal ℤ ℕ
terminal = record {
  account_info = λ t. some account;
  symbol_info = λ symbol t. some spec;
  symbol_info_tick = λ symbol t. some (record { ask = pos 11_000; bid = pos 10_999 });
  order_calc_margin = λ long symbol price t. some (pos 1_000_000);
  positions_get = λ t. some (position ∷ []);
  position_of = λ ticket t. some (position ∷ []);
  order_send = λ request t.
      (some (record { done = true; order = suc t; deal = 0; price = pos 11_000 }), suc t);
  history_deals_get = λ ticket t. none;
  utc_now = λ t. t;
}

mt5_executor-IsBroker_example : IsBroker (mt5_executor terminal 42 [] pips)
mt5_executor-IsBroker_example = mt5_executor-IsBroker terminal 42 [] pips

open_orders-budget_example :
    All (λ (o : Order ℤ). booked_risk manager o ≡ pos 100) (open_orders terminal 42 [] 0)
open_orders-budget_example = open_orders-budget terminal manager 42 [] 0

fit_to_margin-IsFitted_example :
    IsFitted Fixed-IsOrdered buy_order spec
      (max_lot_of spec account (pos 1_000_000))
      (fit_to_margin terminal buy_order (pos 11_000) 0)
fit_to_margin-IsFitted_example =
    fit_to_margin-IsFitted Fixed-IsOrdered terminal buy_order (pos 11_000) 0 spec account
      (pos 1_000_000) refl refl refl refl refl refl
