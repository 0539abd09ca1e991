-- ===== src/Risk/Manager/Day.antt =====
-- The daily result that the loss breaker reads: `RiskState.daily_pnl` of src/risk/risk_manager.py.
use forex_ea.Prelude.{ℕ, ◌≡◌, ◌≢◌, refl, ap, ◌∙◌, some, List, [], ◌∷◌, arith, foldl, nat_beq_iff}
use forex_ea.Float.{Float}
use forex_ea.Execution.{date}
use forex_ea.Risk.Manager.{
  RiskManager, RiskState, Request, LotSizer, evaluate, register_trade_opened, register_trade_closed,
  daily_reset_if_needed,
}

-- The calls of one UTC day: an evaluation, an opening with the risk booked, and a closing with the
-- risk and the profit of the trade.
pub data DayCall (F : Type 0) : Type 0 where
  evaluated : RiskManager F → LotSizer F → Request F → DayCall F
  opened : F → DayCall F
  closed : F → F → DayCall F

module _ {F : Type 0} ⦃f : Float F⦄ where
  open f use {nought, add}

  abbrev pub after_day_call : RiskState F → DayCall F → RiskState F
  after_day_call s (evaluated m sizer req) = (evaluate m sizer req s).1
  after_day_call s (opened booked) = register_trade_opened booked s
  after_day_call s (closed booked pnl) = register_trade_closed booked pnl s

  abbrev pub after_day : RiskState F → List (DayCall F) → RiskState F
  after_day s calls = foldl after_day_call s calls

  -- The profits of the trades that close among the calls.
  abbrev pub profits : List (DayCall F) → List F
  profits [] = []
  profits (evaluated m sizer req ∷ calls) = profits calls
  profits (opened booked ∷ calls) = profits calls
  profits (closed booked pnl ∷ calls) = pnl ∷ profits calls

  abbrev pub IsOn : ℕ → List (DayCall F) → Type 0
  IsOn today [] = Unit
  IsOn today (evaluated m sizer req ∷ calls) = (date req.reset_at ≡ today) × IsOn today calls
  IsOn today (opened booked ∷ calls) = IsOn today calls
  IsOn today (closed booked pnl ∷ calls) = IsOn today calls

  reset-same_day :
      (today : ℕ) (s : RiskState F) → s.last_reset ≡ some today → daily_reset_if_needed today s ≡ s
  unfolding daily_reset_if_needed
  reset-same_day today s h = rw h (ground (arith, nat_beq_iff today today))

  evaluate-same_day :
      (m : RiskManager F) (sizer : LotSizer F) (req : Request F) (today : ℕ) (s : RiskState F)
      → s.last_reset ≡ some today
      → date req.reset_at ≡ today
      → (evaluate m sizer req s).1 ≡ s
  unfolding evaluate
  evaluate-same_day m sizer req today s h same =
      ap (λ d. daily_reset_if_needed d s) same ∙ reset-same_day today s h

  -- From a state whose day has begun, the calls of that day leave in `daily_pnl` the sum of what was
  -- there and of the profits of the trades closed, in the order of closing.
  pub daily_pnl_sums :
      (today : ℕ) (calls : List (DayCall F)) (s : RiskState F)
      → s.last_reset ≡ some today
      → IsOn today calls
      → (after_day s calls).daily_pnl ≡ foldl add s.daily_pnl (profits calls)
  unfolding register_trade_opened register_trade_closed
  daily_pnl_sums today [] s h on = refl
  daily_pnl_sums today (evaluated m sizer req ∷ calls) s h (same, on) =
      ap (λ u. (after_day u calls).daily_pnl) (evaluate-same_day m sizer req today s h same)
      ∙ daily_pnl_sums today calls s h on
  daily_pnl_sums today (opened booked ∷ calls) s h on = daily_pnl_sums today calls _ h on
  daily_pnl_sums today (closed booked pnl ∷ calls) s h on = daily_pnl_sums today calls _ h on

  -- A trade that closes after midnight, before the first evaluation of the new day, is not counted
  -- in the new day: that evaluation sets `daily_pnl` to 0, whatever the trade lost.
  late_close_dropped :
      (m : RiskManager F) (sizer : LotSizer F) (req : Request F) (s : RiskState F) (day : ℕ)
      (booked pnl : F)
      → s.last_reset ≡ some day
      → date req.reset_at ≢ day
      → (evaluate m sizer req (register_trade_closed booked pnl s)).1.daily_pnl ≡ nought
  unfolding evaluate register_trade_closed daily_reset_if_needed
  late_close_dropped m sizer req s day booked pnl h new =
      rw h (ground (arith, nat_beq_iff (date req.reset_at) day))
