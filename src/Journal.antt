-- ===== src/Journal.antt =====
-- The trade journal: src/execution/journal.py. The table `trades` is a table from its primary key to the
-- other columns; a text column that holds a time stamp is the instant it names. An INSERT of a key
-- that is taken raises `sqlite3.IntegrityError` and leaves the table alone.
pub mod Lifecycle
pub mod Open
pub mod Keys
use mathlib.Core.Option
use forex_ea.Prelude.{
  ℕ, suc, ◌+◌, ◌-◌, Bool, true, false, Option, none, some, List, [], ◌∷◌, ◌++◌, String, nat_beq,
  leb, not, ◌&&◌, if◌then◌else◌, select, take, length, foldl, map,
}
use forex_ea.Table.{Table, lookup, nat_eq, string_eq, ◌==◌}
use forex_ea.Result.{Result, ok, err, Raised}
use forex_ea.Float.{Float}
use forex_ea.Execution.{Order, OrderStatus, SignalType, date}

-- The columns of `trades` behind its key.
pub record Trade (F : Type 0) : Type 0 where
  pub symbol : String
  pub side : SignalType
  pub lot_size : F
  pub entry_price : F
  pub exit_price : Option F
  pub stop_loss : F
  pub take_profit : F
  pub strategy : String
  pub status : OrderStatus
  pub opened_at : ℕ
  pub closed_at : Option ℕ
  pub pnl : F
  pub close_reason : Option String
  pub broker_ticket : Option ℕ

-- The columns of `trade_modifications`, whose key counts its rows.
pub record StopChange (F : Type 0) : Type 0 where
  pub id : ℕ
  pub trade_id : ℕ
  pub ts : ℕ
  pub stop_loss : Option F
  pub take_profit : Option F

pub record Journal (F : Type 0) : Type 0 where
  pub trades : Table ℕ (Trade F)
  pub modifications : List (StopChange F)

-- What the broker says of a position that it has closed.
pub record CloseInfo (F : Type 0) : Type 0 where
  pub exit_price : F
  pub closed_at : ℕ
  pub pnl : F

abbrev pub is_open : OrderStatus → Bool
is_open OrderStatus.open_status = true
is_open _ = false

abbrev pub is_closed : OrderStatus → Bool
is_closed OrderStatus.closed = true
is_closed _ = false

abbrev pub is_none {ℓ} : {A : Type ℓ} → Option A → Bool
is_none none = true
is_none (some a) = false

-- `column = ?`, which no NULL meets
abbrev pub holds : Option ℕ → ℕ → Bool
holds none n = false
holds (some m) n = nat_beq m n

-- `COALESCE(a, b)` where `b` is not NULL
abbrev pub coalesce {ℓ} : {A : Type ℓ} → Option A → A → A
coalesce none b = b
coalesce (some a) b = a

-- `UPDATE ... SET ... WHERE ...`
abbrev pub update_where : {V : Type 0} → (ℕ → V → Bool) → (V → V) → Table ℕ V → Table ℕ V
update_where p change [] = []
update_where p change ((id, row) ∷ t) =
    (id, if p id row then change row else row) ∷ update_where p change t

abbrev is_on : ℕ → Option ℕ → Bool
is_on today none = false
is_on today (some closed_at) = nat_beq (date closed_at) today

module _ {F : Type 0} ⦃f : Float F⦄ where
  open f use {nought, add, lt}

  -- The row of an order; the columns that the INSERT does not name are NULL, the P&L 0.
  abbrev pub opened_row : Order F → Trade F
  opened_row o = record {
    symbol = o.symbol;
    side = o.side;
    lot_size = o.lot_size;
    entry_price = o.entry_price;
    exit_price = none;
    stop_loss = o.stop_loss;
    take_profit = o.take_profit;
    strategy = o.strategy;
    status = o.status;
    opened_at = o.opened_at;
    closed_at = none;
    pnl = nought;
    close_reason = none;
    broker_ticket = o.broker_ticket;
  }

  -- `INSERT`, by the row that has the key already.
  abbrev pub insert_row : ℕ → Trade F → Journal F → Option (Trade F) → Result (Journal F)
  insert_row id row j (some taken) = err Raised.integrity_error
  insert_row id row j none = ok (record j { trades = j.trades ++ (id, row) ∷ [] })

  unfoldable pub record_open : Order F → Journal F → Result (Journal F)
  record_open o j = insert_row o.id (opened_row o) j (lookup o.id j.trades)

  abbrev pub modify_row : Option F → Option F → Trade F → Trade F
  modify_row stop_loss take_profit t = record t {
    stop_loss = coalesce stop_loss t.stop_loss;
    take_profit = coalesce take_profit t.take_profit;
  }

  unfoldable pub record_modify : ℕ → Option F → Option F → ℕ → Journal F → Journal F
  record_modify trade_id stop_loss take_profit now j = record {
    trades = update_where (λ id t. nat_beq id trade_id) (modify_row stop_loss take_profit) j.trades;
    modifications =
        j.modifications
        ++ record {
          id = suc (length j.modifications);
          trade_id = trade_id;
          ts = now;
          stop_loss = stop_loss;
          take_profit = take_profit;
        }
          ∷ [];
  }

  abbrev pub close_row : Order F → Trade F → Trade F
  close_row o t = record t {
    status = o.status;
    exit_price = o.exit_price;
    closed_at = o.closed_at;
    pnl = o.pnl;
    close_reason = some o.close_reason;
  }

  unfoldable pub record_close : Order F → Journal F → Journal F
  record_close o j = record j {
    trades = update_where (λ id t. nat_beq id o.id) (close_row o) j.trades;
  }

  abbrev pub is_listed : ℕ → Trade F → Bool
  is_listed id t = is_open t.status && is_none t.closed_at && not (is_none t.broker_ticket)

  abbrev pub listed : Table ℕ (Trade F) → Table ℕ (Trade F)
  listed rows = select (λ (r : ℕ × Trade F). is_listed r.0 r.1) rows

  unfoldable pub list_open : Journal F → Table ℕ (Trade F)
  list_open j = listed j.trades

  abbrev pub settle_row : CloseInfo F → String → Trade F → Trade F
  settle_row info close_reason t = record t {
    status = OrderStatus.closed;
    exit_price = some info.exit_price;
    closed_at = some info.closed_at;
    pnl = info.pnl;
    close_reason = some (coalesce t.close_reason close_reason);
  }

  abbrev pub is_open_ticket : ℕ → ℕ → Trade F → Bool
  is_open_ticket ticket id t = holds t.broker_ticket ticket && is_open t.status

  unfoldable pub mark_closed_by_ticket : ℕ → CloseInfo F → String → Journal F → Journal F
  mark_closed_by_ticket ticket info close_reason j = record j {
    trades = update_where (is_open_ticket ticket) (settle_row info close_reason) j.trades;
  }

  -- `ORDER BY opened_at DESC`; rows of one instant keep their order.
  abbrev newest_insert : ℕ × Trade F → Table ℕ (Trade F) → Table ℕ (Trade F)
  newest_insert r [] = r ∷ []
  newest_insert r (s ∷ t) =
      if leb s.1.opened_at r.1.opened_at then r ∷ s ∷ t else s ∷ newest_insert r t

  abbrev newest_first : Table ℕ (Trade F) → Table ℕ (Trade F)
  newest_first [] = []
  newest_first (r ∷ t) = newest_insert r (newest_first t)

  abbrev since : Option ℕ → Table ℕ (Trade F) → Table ℕ (Trade F)
  since none rows = rows
  since (some start) rows = select (λ (r : ℕ × Trade F). leb start r.1.opened_at) rows

  pub recent : ℕ → Option ℕ → Journal F → Table ℕ (Trade F)
  recent limit since_iso j = take limit (newest_first (since since_iso j.trades))

  -- `SUM(pnl)` of the rows, 0 where there are none, and the number of those that won.
  abbrev sum_pnl : Table ℕ (Trade F) → F
  sum_pnl rows = foldl (λ total (r : ℕ × Trade F). add total r.1.pnl) nought rows

  abbrev wins : Table ℕ (Trade F) → ℕ
  wins rows = length (select (λ (r : ℕ × Trade F). lt nought r.1.pnl) rows)

  abbrev closed_on : ℕ → Table ℕ (Trade F) → Table ℕ (Trade F)
  closed_on today rows =
      select (λ (r : ℕ × Trade F). is_closed r.1.status && is_on today r.1.closed_at) rows

  -- The keys "total", "wins" and "pnl", for the date that the clock reads.
  pub summary_today : ℕ → Journal F → ℕ × ℕ × F
  summary_today today j =
      let rows = closed_on today j.trades in (length rows, wins rows, sum_pnl rows)
