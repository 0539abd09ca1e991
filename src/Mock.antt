-- ===== src/Mock.antt =====
-- The executor of a dry run: `MockExecutor` of src/execution/mock.py. It keeps the very order objects
-- that it placed, so what the bot writes to one of them is seen in its list, found here by the order's
-- number.
pub mod Book
use forex_ea.Prelude.{
  ℕ, suc, Bool, true, false, Option, none, some, List, [], ◌∷◌, ◌++◌, String, map, select, nat_beq,
  if◌then◌else◌,
}
use forex_ea.Table.{◌==◌, string_eq}
use forex_ea.Result.{ok}
use forex_ea.Float.{Float}
use forex_ea.Execution.{Order, OrderStatus, is_sell}
use forex_ea.Journal.{is_open}
use forex_ea.Bot.{Executor}

-- `next_id` is what `next(self._ids)` gives.
pub record MockExecutor (F : Type 0) : Type 0 where
  pub balance : F
  pub orders : List (Order F)
  pub next_id : ℕ

module _ {F : Type 0} ⦃f : Float F⦄ where
  open f use {nought, add, sub, mul, neg, lit}

  -- `MockExecutor(starting_balance)`
  abbrev pub new_mock : F → MockExecutor F
  new_mock starting_balance = record { balance = starting_balance; orders = []; next_id = 1 }

  abbrev or_nought : Option F → F
  or_nought none = nought
  or_nought (some x) = x

  pub mock_pnl : Order F → F
  mock_pnl o =
      let raw = sub (or_nought o.exit_price) o.entry_price in
      let diff = if is_sell o.side then neg raw else raw in
      mul (mul diff (lit 10_000 0)) (mul (lit 10 0) o.lot_size)

  -- A write to the object of the order's number.
  abbrev pub rewrite : Order F → List (Order F) → List (Order F)
  rewrite o orders = map (λ (p : Order F). if nat_beq p.id o.id then o else p) orders

  unfoldable pub mock_place : Order F → MockExecutor F → Order F × MockExecutor F
  mock_place o e =
      let o' = record o { id = e.next_id; status = OrderStatus.open_status } in
      (o', record e { orders = e.orders ++ o' ∷ []; next_id = suc e.next_id })

  abbrev pub closed_order : ℕ → Order F → String → Order F
  closed_order now o reason =
      let done = record o {
        status = OrderStatus.closed;
        closed_at = some now;
        exit_price = some (if reason == "target" then o.take_profit else o.stop_loss);
        close_reason = reason;
      } in
      record done { pnl = mock_pnl done }

  -- At the instant that the clock reads.
  unfoldable pub mock_close : ℕ → Order F → String → MockExecutor F → Order F × MockExecutor F
  mock_close now o reason e =
      let o' = closed_order now o reason in
      (o', record e { balance = add e.balance o'.pnl; orders = rewrite o' e.orders })

  unfoldable pub mock_open_orders : MockExecutor F → List (Order F)
  mock_open_orders e = select (λ (o : Order F). is_open o.status) e.orders

  abbrev or_same : Option F → F → F
  or_same none old = old
  or_same (some new) old = new

  unfoldable pub mock_modify :
      Order F → Option F → Option F → MockExecutor F → Order F × MockExecutor F
  mock_modify o stop_loss take_profit e =
      let o' = record o {
        stop_loss = or_same stop_loss o.stop_loss;
        take_profit = or_same take_profit o.take_profit;
      } in
      (o', record e { orders = rewrite o' e.orders })

  pub mock_executor : ℕ → Executor F (MockExecutor F)
  mock_executor now = record {
    account_balance = λ e. ok e.balance;
    open_orders = mock_open_orders;
    place = mock_place;
    close = mock_close now;
    modify = mock_modify;
    shared = λ o e. record e { orders = rewrite o e.orders };
  }
