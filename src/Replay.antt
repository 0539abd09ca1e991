-- ===== src/Replay.antt =====
-- Replaying a closed trade over its recorded path with other levels: src/replay/engine.py. The row of
-- the table `trades` and the recorded bars are arguments.
pub mod Walk
use mathlib.Core.Option
use forex_ea.Prelude.{
  ℕ, suc, Bool, true, false, Option, none, some, List, [], ◌∷◌, String, not, ◌||◌, if◌then◌else◌,
  length,
}
use forex_ea.Float.{Float}
use forex_ea.Text.{codes, upper, same_text}
use forex_ea.Execution.{Bar}
use forex_ea.Risk.Sizing.{Pips}
use forex_ea.Table.{◌==◌, string_eq}

pub record ReplayRequest (F : Type 0) : Type 0 where
  pub stop_loss : Option F
  pub take_profit : Option F
  pub sl_mult : Option F
  pub tp_mult : Option F

-- The columns of a row of `trades` that are read.
pub record TradeRow (F : Type 0) : Type 0 where
  pub id : ℕ
  pub status : String
  pub side : String
  pub symbol : String
  pub entry_price : F
  pub stop_loss : F
  pub take_profit : F
  pub lot_size : F
  pub pnl : F
  pub close_reason : Option String

-- "stop", "target", "open_at_end" and "no_path"
pub data ReplayReason : Type 0 where
  stop target open_at_end no_path : ReplayReason

pub record ReplayResult (F : Type 0) : Type 0 where
  pub trade : TradeRow F
  pub replay_stop : F
  pub replay_target : F
  pub replay_exit_price : Option F
  pub replay_close_reason : ReplayReason
  pub replay_pnl : F
  pub replay_r_multiple : Option F
  pub pnl_delta : F
  pub bars_walked : ℕ

-- `side.upper() == "BUY"`
abbrev pub says_buy : String → Bool
says_buy side = same_text (upper (codes side)) (codes "BUY")

module _ {F : Type 0} ⦃f : Float F⦄ where
  open f use {nought, add, sub, mul, div, neg, abs, le, lit}

  -- An absolute level, or else the multiplied distance, or else the recorded level.
  abbrev level : Option F → Option F → (F → F) → F → F
  level (some x) mult at_distance original = x
  level none (some k) at_distance original = at_distance k
  level none none at_distance original = original

  pub resolve_levels : Bool → F → F → F → ReplayRequest F → F × F
  resolve_levels buy entry orig_sl orig_tp req =
      let stop_at = λ (k : F).
        let d = mul (abs (sub entry orig_sl)) k in if buy then sub entry d else add entry d in
      let target_at = λ (k : F).
        let d = mul (abs (sub orig_tp entry)) k in if buy then add entry d else sub entry d in
      (
        level req.stop_loss req.sl_mult stop_at orig_sl,
        level req.take_profit req.tp_mult target_at orig_tp,
      )

  abbrev pub hits_stop : Bool → F → Bar F → Bool
  hits_stop buy sl b = if buy then le b.low sl else le sl b.high

  abbrev pub hits_target : Bool → F → Bar F → Bool
  hits_target buy tp b = if buy then le tp b.high else le b.low tp

  -- The loop, `i` bars in.
  unfoldable pub walk_from : ℕ → Bool → F → F → List (Bar F) → Option F × ReplayReason × ℕ
  walk_from i buy sl tp [] = (none, ReplayReason.open_at_end, i)
  walk_from i buy sl tp (b ∷ bars) =
      let rest = walk_from (suc i) buy sl tp bars in
      if hits_stop buy sl b
      then (some sl, ReplayReason.stop, suc i)
      else if hits_target buy tp b
      then (some tp, ReplayReason.target, suc i)
      else rest

  unfoldable pub walk : Bool → F → F → List (Bar F) → Option F × ReplayReason × ℕ
  unfolding walk_from
  walk buy sl tp bars = walk_from 0 buy sl tp bars

  abbrev pub replay_pnl_of : Pips F → String → Bool → F → F → F → F
  replay_pnl_of pips symbol buy entry exit lots =
      let size = pips.size_of symbol in
      let signed_pips = if buy then div (sub exit entry) size else div (sub entry exit) size in
      if le size nought then nought else mul (mul signed_pips (pips.value_of symbol (lit 1 0))) lots

  abbrev pub r_multiple : Bool → F → F → F → Option F
  r_multiple buy entry sl exit =
      let risk = abs (sub entry sl) in
      let signed = if buy then sub exit entry else sub entry exit in
      if le risk nought then none else some (div signed risk)

  abbrev last_close : Bar F → List (Bar F) → F
  last_close b [] = b.close_price
  last_close b (c ∷ bars) = last_close c bars

  -- `exit_price` and `reason` after the path: the last close stands in for an exit.
  abbrev settled : Bar F → List (Bar F) → Option F × ReplayReason × ℕ → F × ReplayReason × ℕ
  settled b bars (some exit, reason, walked) = (exit, reason, walked)
  settled b bars (none, reason, walked) = (last_close b bars, ReplayReason.open_at_end, walked)

  pub replay_path : Pips F → TradeRow F → F → F → List (Bar F) → ReplayResult F
  unfolding walk
  replay_path pips t sl tp [] = record {
    trade = t;
    replay_stop = sl;
    replay_target = tp;
    replay_exit_price = none;
    replay_close_reason = ReplayReason.no_path;
    replay_pnl = nought;
    replay_r_multiple = none;
    pnl_delta = neg t.pnl;
    bars_walked = 0;
  }
  replay_path pips t sl tp (b ∷ bars) =
      let buy = says_buy t.side in
      let (exit, reason, walked) = settled b bars (walk buy sl tp (b ∷ bars)) in
      let pnl = replay_pnl_of pips t.symbol buy t.entry_price exit t.lot_size in
      record {
        trade = t;
        replay_stop = sl;
        replay_target = tp;
        replay_exit_price = some exit;
        replay_close_reason = reason;
        replay_pnl = pnl;
        replay_r_multiple = r_multiple buy t.entry_price sl exit;
        pnl_delta = sub pnl t.pnl;
        bars_walked = walked;
      }

  pub replay :
      Pips F → Option (TradeRow F) → List (Bar F) → ReplayRequest F → Option (ReplayResult F)
  unfolding resolve_levels replay_path
  replay pips none bars req = none
  replay pips (some t) bars req =
      let (sl, tp) = resolve_levels (says_buy t.side) t.entry_price t.stop_loss t.take_profit req in
      if not (t.status == "CLOSED") then none else some (replay_path pips t sl tp bars)
