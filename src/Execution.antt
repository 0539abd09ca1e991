-- ===== src/Execution.antt =====
-- The order and signal types that the bot's parts exchange (src/strategies/base.py,
-- src/execution/base.py), and instants. An instant is its count of microseconds since the epoch, UTC.
pub mod Stops
pub mod Exits
pub mod Trailing
use forex_ea.Prelude.{
  ℕ, ◌*◌, ◌/◌, ◌+◌, Bool, true, false, Option, String, leb, ltb, ◌≡◌, refl, ◌↔◌, arith,
}
use forex_ea.Table.{Eq}

abbrev pub second : ℕ
second = 1_000_000

-- `now.date()`
abbrev pub date : ℕ → ℕ
date now = now / (86_400 * second)

-- `(now - last).total_seconds() >= s`
abbrev pub elapsed_ge : ℕ → ℕ → ℕ → Bool
elapsed_ge now last s = leb (last + s * second) now

-- `(now - last).total_seconds() < s`
abbrev pub elapsed_lt : ℕ → ℕ → ℕ → Bool
elapsed_lt now last s = ltb now (last + s * second)

pub data SignalType : Type 0 where
  buy sell hold close : SignalType

-- `a == b` on two signal types
abbrev pub same_type : SignalType → SignalType → Bool
same_type SignalType.buy SignalType.buy = true
same_type SignalType.sell SignalType.sell = true
same_type SignalType.hold SignalType.hold = true
same_type SignalType.close SignalType.close = true
same_type _ _ = false

pub same_type_iff : (a b : SignalType) → (same_type a b ≡ true) ↔ (a ≡ b)
same_type_iff a b = grind arith

instance abbrev pub side_eq : Eq SignalType
side_eq = record { beq = same_type; beq_iff = same_type_iff }

abbrev pub is_buy : SignalType → Bool
is_buy t = same_type t SignalType.buy

abbrev pub is_sell : SignalType → Bool
is_sell t = same_type t SignalType.sell

pub data OrderStatus : Type 0 where
  open_status closed rejected : OrderStatus

-- The keys that the code puts into `Order.extra`; a missing key is `none`.
pub record Extra (F : Type 0) : Type 0 where
  pub peak_price : Option F
  pub initial_stop_loss : Option F
  pub risk_weight : Option F
  pub booked_risk_pct : Option F
  pub regime : Option String

pub record Order (F : Type 0) : Type 0 where
  pub id : ℕ
  pub symbol : String
  pub side : SignalType
  pub lot_size : F
  pub entry_price : F
  pub stop_loss : F
  pub take_profit : F
  pub opened_at : ℕ
  pub strategy : String
  pub status : OrderStatus
  pub exit_price : Option F
  pub closed_at : Option ℕ
  pub pnl : F
  pub close_reason : String
  pub broker_ticket : Option ℕ
  pub extra : Extra F

pub record Bar (F : Type 0) : Type 0 where
  pub open_price : F
  pub high : F
  pub low : F
  pub close_price : F

pub record Signal (F : Type 0) : Type 0 where
  pub type : SignalType
  pub symbol : String
  pub timestamp : ℕ
  pub price : F
  pub stop_loss : Option F
  pub take_profit : Option F
  pub reason : String
