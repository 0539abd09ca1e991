-- ===== src/Risk/Sizing.antt =====
-- Lots from a risk budget, and the pip conventions of a symbol: src/risk/position_sizing.py. What the
-- terminal says of a symbol is the parameter `info`, `none` where it raises or knows no such symbol.
pub mod Bounds
pub mod Cache
use mathlib.Core.Option
use forex_ea.Prelude.{
  ℕ, Bool, true, false, Option, none, some, List, [], ◌∷◌, String, not, ◌&&◌, ◌||◌, if◌then◌else◌,
}
use forex_ea.Table.{Table, lookup, upsert, string_eq}
use forex_ea.Text.{codes, upper, one_of, ends_with}
use forex_ea.Result.{Result, ok, err, Raised, raise_if, ◌>>=◌, ◌>>◌}
use forex_ea.Float.{Float, min_of}

-- The fields of `mt5.symbol_info(symbol)` that are read; a missing one is 0.
pub record SymbolInfo (F : Type 0) : Type 0 where
  pub point : F
  pub trade_tick_value : F
  pub trade_tick_size : F

-- The caches of a `PipResolver`.
pub record PipResolver (F : Type 0) : Type 0 where
  pub size_cache : Table String F
  pub value_cache : Table String F

pub record LotLimits (F : Type 0) : Type 0 where
  pub min_lot : F
  pub max_lot : F
  pub lot_step : F

module _ {F : Type 0} ⦃f : Float F⦄ where
  open f use {nought, add, mul, div, floor_div, round_cents, lt, le, eq, lit}

  pub fallback_pip_size : String → F
  fallback_pip_size symbol =
      let s = upper (codes symbol) in
      if one_of s (codes "XAUUSD" ∷ codes "GOLD" ∷ codes "XAGUSD" ∷ codes "SILVER" ∷ [])
      then lit 1 1
      else if ends_with s (codes "JPY")
      then lit 1 2
      else lit 1 4

  pub fallback_pip_value : String → F
  fallback_pip_value symbol =
      let s = upper (codes symbol) in
      if one_of s (codes "XAUUSD" ∷ codes "GOLD" ∷ [])
      then lit 10 0
      else if ends_with s (codes "JPY")
      then lit 9 0
      else lit 10 0

  fetch_size : Option (SymbolInfo F) → Option F
  fetch_size none = none
  fetch_size (some i) = if le i.point nought then none else some (mul i.point (lit 10 0))

  fetch_value : Option (SymbolInfo F) → Option F
  fetch_value none = none
  fetch_value (some i) =
      let ticks_per_pip =
        if le i.trade_tick_size nought
        then lit 10 0
        else div (mul i.point (lit 10 0)) i.trade_tick_size in
      if le i.trade_tick_value nought || le i.point nought
      then none
      else some (mul i.trade_tick_value ticks_per_pip)

  -- `if x is None or x <= 0: x = fallback`
  abbrev or_fallback : Option F → F → F
  or_fallback none fallback = fallback
  or_fallback (some x) fallback = if le x nought then fallback else x

  module _ (info : String → Option (SymbolInfo F)) where
    abbrev size_miss : String → PipResolver F → Option F → F × PipResolver F
    size_miss symbol r (some size) = (size, r)
    size_miss symbol r none =
        let size = or_fallback (fetch_size (info symbol)) (fallback_pip_size symbol) in
        (size, record r { size_cache = upsert symbol size r.size_cache })

    pub resolver_pip_size : String → PipResolver F → F × PipResolver F
    unfolding fetch_size
    resolver_pip_size symbol r = size_miss symbol r (lookup symbol r.size_cache)

    abbrev value_miss : String → PipResolver F → Option F → F × PipResolver F
    value_miss symbol r (some per_lot) = (per_lot, r)
    value_miss symbol r none =
        let per_lot = or_fallback (fetch_value (info symbol)) (fallback_pip_value symbol) in
        (per_lot, record r { value_cache = upsert symbol per_lot r.value_cache })

    pub resolver_pip_value : String → F → PipResolver F → F × PipResolver F
    unfolding fetch_value
    resolver_pip_value symbol lot_size r =
        let (per_lot, r') = value_miss symbol r (lookup symbol r.value_cache) in
        (mul per_lot lot_size, r')

  -- the default arguments
  abbrev pub default_lots : LotLimits F
  default_lots = record { min_lot = lit 1 2; max_lot = lit 100 0; lot_step = lit 1 2 }

  -- `a / b`, which raises at 0
  abbrev pub divide : F → F → Result F
  divide a b = if eq b nought then err Raised.zero_division_error else ok (div a b)

  abbrev pub stepped_of : LotLimits F → F → F
  stepped_of lim raw_lots = mul (floor_div raw_lots lim.lot_step) lim.lot_step

  unfoldable pub lots_of : LotLimits F → F → F
  lots_of lim raw_lots =
      let stepped = stepped_of lim raw_lots in
      if lt stepped lim.min_lot then nought else min_of lim.max_lot (round_cents stepped)

  -- `pip_value` is the value per lot of the symbol.
  unfoldable pub lot_size_from_risk : LotLimits F → F → F → F → F → Result F
  unfolding lots_of
  lot_size_from_risk lim account_balance risk_pct stop_distance_pips pip_value = do
    raise_if (le stop_distance_pips nought) Raised.value_error
    raise_if (not (lt nought risk_pct && lt risk_pct (lit 1 0))) Raised.value_error
    raw_lots ← divide (mul account_balance risk_pct) (mul stop_distance_pips pip_value)
    raise_if (eq lim.lot_step nought) Raised.zero_division_error
    ok (lots_of lim raw_lots)

-- The queries of one resolver, each with what the terminal answers at that time.
pub data Query (F : Type 0) : Type 0 where
  asks_size : (String → Option (SymbolInfo F)) → String → Query F
  asks_value : (String → Option (SymbolInfo F)) → String → F → Query F

module _ {F : Type 0} ⦃f : Float F⦄ where
  abbrev pub after_query : Query F → PipResolver F → PipResolver F
  after_query (asks_size info symbol) r = (resolver_pip_size info symbol r).1
  after_query (asks_value info symbol lots) r = (resolver_pip_value info symbol lots r).1

  pub after_queries : List (Query F) → PipResolver F → PipResolver F
  after_queries [] r = r
  after_queries (q ∷ qs) r = after_queries qs (after_query q r)

-- What the functions `pip_size` and `pip_value` of the module answer at one time.
pub record Pips (F : Type 0) : Type 0 where
  pub size_of : String → F
  pub value_of : String → F → F

module _ {F : Type 0} ⦃f : Float F⦄ where
  open f use {mul}

  -- With the resolver that is installed, if any.
  pub pips_of : Option ((String → Option (SymbolInfo F)) × PipResolver F) → Pips F
  pips_of none = record {
    size_of = fallback_pip_size;
    value_of = λ symbol lots. mul (fallback_pip_value symbol) lots;
  }
  pips_of (some (info, r)) = record {
    size_of = λ symbol. (resolver_pip_size info symbol r).0;
    value_of = λ symbol lots. (resolver_pip_value info symbol lots r).0;
  }
