-- ===== src/Backtest.antt =====
-- The bar-by-bar simulation: src/backtesting/engine.py. The strategy is a parameter, as it is there:
-- the signal that it gives for the bars so far, or the exception that it raises.
pub mod Equity
pub mod Returns
pub mod Agreement
use mathlib.Core.Option
use forex_ea.Prelude.{
  ℕ, zero, suc, Bool, true, false, Option, none, some, List, [], ◌∷◌, ◌++◌, String, not, ◌||◌,
  foldl, if◌then◌else◌, length, is_empty, take, drop, select,
}
use forex_ea.Float.{Float}
use forex_ea.Execution.{SignalType, Signal, Bar, is_buy, is_sell}
use forex_ea.Result.{Result, ok, err, Raised, ◌>>=◌, ◌>>◌}
use forex_ea.Risk.Sizing.{Pips, default_lots, divide, lot_size_from_risk}

-- "", "stop", "target" and "end of data"
pub data TradeReason : Type 0 where
  unset stop target end_of_data : TradeReason

pub record Trade (F : Type 0) : Type 0 where
  pub entry_time : ℕ
  pub exit_time : Option ℕ
  pub side : SignalType
  pub symbol : String
  pub entry_price : F
  pub exit_price : Option F
  pub stop_loss : F
  pub take_profit : F
  pub lot_size : F
  pub pnl : F
  pub reason : TradeReason

-- The local variables of `run_backtest`; trades and curve grow at their end.
pub record Book (F : Type 0) : Type 0 where
  pub equity : F
  pub equity_curve : List F
  pub trades : List (Trade F)
  pub open_trade : Option (Trade F)

pub record BacktestResult (F : Type 0) : Type 0 where
  pub trades : List (Trade F)
  pub equity_curve : List F
  pub final_equity : F
  pub total_return : F
  pub win_rate : F
  pub total_trades : ℕ
  pub profit_factor : F

-- A row of the data: its time and its bar.
abbrev pub Row : Type 0 → Type 0
Row F = ℕ × Bar F

abbrev pub Strategy : Type 0 → Type 0
Strategy F = List (Row F) → Result (Signal F)

module _ {F : Type 0} ⦃f : Float F⦄ where
  open f use {nought, add, sub, div, neg, abs, lt, le, eq, lit}

  -- `x or 0.0`
  abbrev pub or_zero : Option F → F
  or_zero none = nought
  or_zero (some x) = if eq x nought then nought else x

  unfoldable pub pnl : Pips F → Trade F → F → Result F
  pnl pips t exit_price = do
    let diff = sub exit_price t.entry_price
    let signed = if is_sell t.side then neg diff else diff
    moved ← divide signed (pips.size_of t.symbol)
    ok (f.mul moved (pips.value_of t.symbol t.lot_size))

  unfoldable pub close : Pips F → Trade F → F → ℕ → TradeReason → Result (Trade F)
  unfolding pnl
  close pips t price ts reason = do
    gain ← pnl pips t price
    ok (record t { exit_time = some ts; exit_price = some price; pnl = gain; reason = reason })

  -- The trade as it is closed by the bar, if it is.
  unfoldable pub check_stop_or_target : Pips F → Trade F → Bar F → ℕ → Result (Option (Trade F))
  unfolding close
  check_stop_or_target pips t bar ts =
      let at_stop = close pips t t.stop_loss ts TradeReason.stop >>= λ c. ok (some c) in
      let at_target = close pips t t.take_profit ts TradeReason.target >>= λ c. ok (some c) in
      if is_buy t.side
      then (if le bar.low t.stop_loss
          then at_stop
          else if le t.take_profit bar.high
          then at_target
          else ok none)
      else if le t.stop_loss bar.high
      then at_stop
      else if le bar.low t.take_profit
      then at_target
      else ok none

  abbrev pub stop_pips : Pips F → F → F → String → Result F
  stop_pips pips price sl symbol =
      let distance = if eq sl nought then nought else abs (sub price sl) in
      if lt nought distance then divide distance (pips.size_of symbol) else ok nought

  -- Without a stop the lots are 0.01.
  abbrev pub signal_lots : Pips F → F → F → F → String → Result F
  signal_lots pips equity risk_pct distance symbol =
      if lt nought distance
      then lot_size_from_risk default_lots equity risk_pct distance (pips.value_of symbol (lit 1 0))
      else ok (lit 1 2)

  unfoldable pub open_from_signal : Pips F → Signal F → F → F → String → Result (Trade F)
  open_from_signal pips sig equity risk_pct symbol = do
    let sl = or_zero sig.stop_loss
    distance ← stop_pips pips sig.price sl symbol
    lots ← signal_lots pips equity risk_pct distance symbol
    ok (record {
      entry_time = sig.timestamp;
      exit_time = none;
      side = sig.type;
      symbol = symbol;
      entry_price = sig.price;
      exit_price = none;
      stop_loss = sl;
      take_profit = or_zero sig.take_profit;
      lot_size = lots;
      pnl = nought;
      reason = TradeReason.unset;
    })

  -- The trade that has closed leaves the open slot for the list.
  abbrev booked : Trade F → Book F → Book F
  booked t b = record b {
    equity = add b.equity t.pnl;
    trades = b.trades ++ t ∷ [];
    open_trade = none;
  }

  abbrev filled : Book F → Option (Trade F) → Book F
  filled b none = b
  filled b (some t) = booked t b

  unfoldable pub exits : Pips F → Bar F → ℕ → Option (Trade F) → Book F → Result (Book F)
  unfolding check_stop_or_target
  exits pips bar ts none b = ok b
  exits pips bar ts (some t) b = check_stop_or_target pips t bar ts >>= λ o. ok (filled b o)

  abbrev pub enter : Pips F → F → String → Book F → Signal F → Result (Book F)
  enter pips risk_pct sym b sig =
      if is_buy sig.type || is_sell sig.type
      then (open_from_signal pips sig b.equity risk_pct sym >>= λ t.
          ok (record b { open_trade = some t }))
      else ok b

  unfoldable pub entries :
      Pips F → Strategy F → F → String → List (Row F) → Option (Trade F) → Book F → Result (Book F)
  unfolding open_from_signal
  entries pips strategy risk_pct sym window (some t) b = ok b
  entries pips strategy risk_pct sym window none b = strategy window >>= enter pips risk_pct sym b

  abbrev open_pnl : Option (Trade F) → F
  open_pnl none = nought
  open_pnl (some t) = t.pnl

  abbrev marked : Book F → Book F
  marked b = record b { equity_curve = b.equity_curve ++ add b.equity (open_pnl b.open_trade) ∷ [] }

  -- One pass of the loop, with the rows up to and including the current one.
  unfoldable pub on_bar :
      Pips F → Strategy F → F → String → List (Row F) → Row F → Book F → Result (Book F)
  unfolding exits entries
  on_bar pips strategy risk_pct sym window (ts, bar) b = do
    b₁ ← exits pips bar ts b.open_trade b
    b₂ ← entries pips strategy risk_pct sym window b₁.open_trade b₁
    ok (marked b₂)

  -- The loop, over the rows that follow those of `before`.
  unfoldable pub loop :
      Pips F → Strategy F → F → String → List (Row F) → List (Row F) → Book F → Result (Book F)
  unfolding on_bar
  loop pips strategy risk_pct sym before [] b = ok b
  loop pips strategy risk_pct sym before (row ∷ rows) b = do
    let window = before ++ row ∷ []
    b' ← on_bar pips strategy risk_pct sym window row b
    loop pips strategy risk_pct sym window rows b'

  abbrev last? : List (Row F) → Option (Row F)
  last? [] = none
  last? (row ∷ []) = some row
  last? (row ∷ next ∷ rows) = last? (next ∷ rows)

  -- A trade that is still open ends at the last close; without a row no trade is open.
  unfoldable pub at_end : Pips F → Option (Row F) → Option (Trade F) → Book F → Result (Book F)
  unfolding close
  at_end pips (some (ts, bar)) (some t) b = do
    c ← close pips t bar.close_price ts TradeReason.end_of_data
    ok (booked c b)
  at_end pips _ _ b = ok b

  abbrev total : List (Trade F) → F
  total ts = foldl (λ s (t : Trade F). add s t.pnl) nought ts

  abbrev or_tiny : F → F
  or_tiny x = if eq x nought then lit 1 9 else x

  abbrev summary : F → Book F → F → BacktestResult F
  summary start b total_return =
      let wins = select (λ (t : Trade F). lt nought t.pnl) b.trades in
      let losses = select (λ (t : Trade F). le t.pnl nought) b.trades in
      record {
        trades = b.trades;
        equity_curve = b.equity_curve;
        final_equity = b.equity;
        total_return = total_return;
        win_rate =
            if is_empty b.trades
            then nought
            else div (lit (length wins) 0) (lit (length b.trades) 0);
        total_trades = length b.trades;
        profit_factor = div (total wins) (or_tiny (abs (total losses)));
      }

  abbrev pub opening_book : F → Book F
  opening_book equity = record {
    equity = equity;
    equity_curve = [];
    trades = [];
    open_trade = none;
  }

  unfoldable pub run_backtest :
      Pips F → Strategy F → F → F → ℕ → String → List (Row F) → Result (BacktestResult F)
  unfolding loop at_end
  run_backtest pips strategy starting_equity risk_pct lookback sym rows = do
    b ←
        loop pips strategy risk_pct sym (take lookback rows) (drop lookback rows)
          (opening_book starting_equity)
    b' ← at_end pips (last? rows) b.open_trade b
    total_return ← divide (sub b'.equity starting_equity) starting_equity
    ok (summary starting_equity b' total_return)
