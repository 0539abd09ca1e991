-- ===== src/Mt5/Comments.antt =====
-- The comments of orders and closings, as code points: `_build_open_comment`, `_strategy_from_comment`
-- and `_build_close_comment` of src/execution/mt5_live.py.
use forex_ea.Prelude.{
  ℕ, ◌≡◌, refl, Bool, Option, none, some, List, [], ◌∷◌, ◌++◌, String, take, map, All, is_empty,
  ◌&&◌, nat_beq, ◌||◌, if◌then◌else◌,
}
use forex_ea.Table.{Table, lookup, ◌==◌, string_eq}
use forex_ea.Text.{codes, same_text, lower_code, contains}
use forex_ea.Float.{Float}
use forex_ea.Execution.{SignalType}

abbrev pub strat_short : Table String String
strat_short =
    ("ma_crossover", "MAcross")
    ∷ ("rsi_mean_reversion", "RSIrev")
    ∷ ("donchian_breakout", "Donch")
    ∷ ("macd_cross", "MACD")
    ∷ ("bollinger_bounce", "BBbnc")
    ∷ ("bollinger_squeeze", "BBsqz")
    ∷ ("stochastic_reversal", "Stoch")
    ∷ ("triple_ma_alignment", "Tri-MA")
    ∷ ("inside_bar_breakout", "IBbrk")
    ∷ ("engulfing_pattern", "Engulf")
    ∷ ("ema_pullback", "EMApb")
    ∷ ("adx_breakout", "ADXbrk")
    ∷ []

-- "·"
abbrev dot : ℕ
dot = 183

abbrev separator : List ℕ
separator = 32 ∷ dot ∷ 32 ∷ []

abbrev short_of : String → Option String → String
short_of strategy (some short) = short
short_of strategy none = if strategy == "" then "?" else strategy

-- `side.value[0]`
abbrev initial : SignalType → List ℕ
initial SignalType.buy = codes "B"
initial SignalType.sell = codes "S"
initial SignalType.hold = codes "H"
initial SignalType.close = codes "C"

abbrev regime_part : Option String → List ℕ
regime_part none = []
regime_part (some regime) = if regime == "" then [] else separator ++ take 5 (codes regime)

pub build_open_comment : String → SignalType → Option String → List ℕ
build_open_comment strategy side regime =
    let short = take 8 (codes (short_of strategy (lookup strategy strat_short))) in
    take 31 (codes "AG" ++ separator ++ short ++ separator ++ initial side ++ regime_part regime)

-- `text.split("·")`
abbrev onto_first : ℕ → List (List ℕ) → List (List ℕ)
onto_first c [] = (c ∷ []) ∷ []
onto_first c (part ∷ parts) = (c ∷ part) ∷ parts

abbrev split_dots : List ℕ → List (List ℕ)
split_dots [] = [] ∷ []
split_dots (c ∷ cs) = if nat_beq c dot then [] ∷ split_dots cs else onto_first c (split_dots cs)

-- `text.strip()`, of spaces
abbrev lstrip : List ℕ → List ℕ
lstrip [] = []
lstrip (c ∷ cs) = if nat_beq c 32 then lstrip cs else c ∷ cs

abbrev rstrip : List ℕ → List ℕ
rstrip [] = []
rstrip (c ∷ cs) = let rest = rstrip cs in if nat_beq c 32 && is_empty rest then [] else c ∷ rest

abbrev strip : List ℕ → List ℕ
strip s = rstrip (lstrip s)

-- The name whose short code is the text, "" where none is.
abbrev full_of : List ℕ → Table String String → String
full_of short [] = ""
full_of short ((full, code) ∷ rest) =
    if same_text (codes code) short then full else full_of short rest

abbrev from_parts : List (List ℕ) → String
from_parts [] = ""
from_parts (p ∷ []) = ""
from_parts (p ∷ q ∷ parts) =
    if same_text (strip p) (codes "AG") then full_of (strip q) strat_short else ""

-- A comment that is None or empty gives "".
pub strategy_from_comment : List ℕ → String
strategy_from_comment comment = from_parts (split_dots comment)

abbrev mentions : List ℕ → List ℕ → List ℕ → Bool
mentions reason word other = contains reason word || contains reason other

module _ {F : Type 0} ⦃f : Float F⦄ where
  open f use {neg, lt, lit}

  abbrev tag_of : F → List ℕ
  tag_of pnl =
      if lt (lit 1 2) pnl
      then codes "WIN"
      else if lt pnl (neg (lit 1 2))
      then codes "LOSS"
      else codes "FLAT"

  pub build_close_comment : String → F → List ℕ
  build_close_comment reason pnl =
      let low = map lower_code (codes reason) in
      let reason_short =
        if mentions low (codes "target") (codes "tp")
        then codes "tgt"
        else if mentions low (codes "stop") (codes "sl")
        then codes "stop"
        else if contains low (codes "trail")
        then codes "trail"
        else if mentions low (codes "time") (codes "expire")
        then codes "time"
        else if contains low (codes "kill")
        then codes "kill"
        else codes "close" in
      take 31 (codes "AG" ++ separator ++ tag_of pnl ++ separator ++ reason_short)

-- The strategy that a comment names is read back, whatever the side and the regime.
abbrev pub IsReadBack : String × String → Type 0
IsReadBack (full, short) =
    (side : SignalType) (regime : Option String)
    → strategy_from_comment (build_open_comment full side regime) ≡ full

-- Every strategy that has a short code is read back from the comment of its orders: the bot recognises
-- its own positions in the broker's list.
pub strategy_from-build_open_comment : All IsReadBack strat_short
unfolding build_open_comment strategy_from_comment
strategy_from-build_open_comment = (
  λ side regime. refl,
  (
    λ side regime. refl,
    (
      λ side regime. refl,
      (
        λ side regime. refl,
        (
          λ side regime. refl,
          (
            λ side regime. refl,
            (
              λ side regime. refl,
              (
                λ side regime. refl,
                (
                  λ side regime. refl,
                  (λ side regime. refl, (λ side regime. refl, (λ side regime. refl, tt))),
                ),
              ),
            ),
          ),
        ),
      ),
    ),
  ),
)
