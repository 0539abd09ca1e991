-- ===== src/Bot/Opening/Once.antt =====
-- A bar is acted on once: `_handle_signal` of src/bot.py with src/execution/signal_dedup.py.
use forex_ea.Prelude.{
  ◌≡◌, ◌≢◌, ◌⊎◌, ◌∙◌, refl, All, List, [], ◌∷◌, sym, ap, subst, Bool, true, false, Option, none,
  some, String, Bool-cases, inl, inr,
}
use forex_ea.Table.{string_eq}
use forex_ea.Result.{ok}
use forex_ea.Float.{Float}
use forex_ea.Execution.{Signal}
use forex_ea.Risk.Sizing.{Pips}
use forex_ea.Controls.SignalDedup.{
  DedupTable, already_acted, already_acted-remember, already_acted-remember_other, IsOtherKey,
}
use forex_ea.Bot.{Bot, Executor, Clock, DedupAnswer}
use forex_ea.Bot.Opening.{handle_signal, on_levels, if_first, first_on_bar}
use forex_ea.Bot.Opening.Stored.{by_mode-Still}

-- A signal that is handled, with the clocks and the trend.
pub record Handled (F : Type 0) : Type 0 where
  pub clk : Clock F
  pub name : String
  pub regime : Option String
  pub sig : Signal F

module _ {F : Type 0} ⦃f : Float F⦄ {E : Type 0} (ex : Executor F E) (pips : Pips F) where
  -- The bot has marked the signal's bar.
  abbrev IsMarked : String → Signal F → Bot F E → Type 0
  IsMarked name sig b =
      (table : DedupTable) × (b.signal_dedup_store ≡ some table)
      × (already_acted name sig.symbol sig.timestamp table ≡ true)

  -- What was marked stays marked in the table that the deduplication leaves.
  abbrev HasMark : String → Signal F → Option DedupTable → Type 0
  HasMark name sig o =
      (table : DedupTable) × (o ≡ some table)
      × (already_acted name sig.symbol sig.timestamp table ≡ true)

  -- The signal concerns another strategy or symbol, or the same bar.
  abbrev pub IsApart : String → Signal F → String → Signal F → Type 0
  IsApart name sig other again =
      IsOtherKey (other, again.symbol) (name, sig.symbol) ⊎ (again.timestamp ≡ sig.timestamp)

  first_on_bar-seen :
      (a : DedupAnswer) (name : String) (sig : Signal F) (table : DedupTable)
      → a ≢ DedupAnswer.check_raises
      → already_acted name sig.symbol sig.timestamp table ≡ true
      → first_on_bar a name sig (some table) ≡ (false, some table)
  first_on_bar-seen DedupAnswer.answers name sig table ne acted = rw acted refl
  first_on_bar-seen DedupAnswer.check_raises name sig table ne acted = absurd (ne refl)
  first_on_bar-seen DedupAnswer.remember_raises name sig table ne acted = rw acted refl

  first_on_bar-HasMark :
      (a : DedupAnswer) (name other : String) (sig again : Signal F) (table : DedupTable)
      → IsApart name sig other again
      → already_acted name sig.symbol sig.timestamp table ≡ true
      → HasMark name sig (first_on_bar a other again (some table)).1
  first_on_bar-HasMark DedupAnswer.check_raises name other sig again table h acted =
      (table, refl, acted)
  first_on_bar-HasMark DedupAnswer.remember_raises name other sig again table h acted =
      (table, refl, acted)
  first_on_bar-HasMark DedupAnswer.answers name other sig again table h acted =
      elim (Bool-cases (already_acted other again.symbol again.timestamp table)) [
        | inl seen ↦ rw seen (table, refl, acted)
        | inr fresh ↦ rw fresh (
          _,
          refl,
          already_acted-remember_other name sig.symbol other again.symbol sig.timestamp
              again.timestamp again.type table h acted,
        )
      ]

  if_first-IsMarked :
      (clk : Clock F) (name : String) (sig : Signal F) (other : String) (regime : Option String)
      (again : Signal F) (sl tp : F) (p : Bool × Option DedupTable) (b : Bot F E)
      → (p.0 ≡ false → IsMarked name sig b)
      → HasMark name sig p.1
      → IsMarked name sig (if_first ex pips clk other regime again sl tp p b).1
  if_first-IsMarked clk name sig other regime again sl tp (false, o) b before h = before refl
  if_first-IsMarked clk name sig other regime again sl tp (true, o) b before (table, e, acted) = (
    table,
    by_mode-Still ex pips clk o other regime again sl tp (record b { signal_dedup_store = o }) refl
        ∙ e,
    acted,
  )

  -- A signal that is handled with a store that answers leaves its bar marked.
  first_on_bar-marks :
      (name : String) (sig : Signal F) (table : DedupTable)
      → HasMark name sig (first_on_bar DedupAnswer.answers name sig (some table)).1
        × ((first_on_bar DedupAnswer.answers name sig (some table)).0 ≡ false
            → already_acted name sig.symbol sig.timestamp table ≡ true)
  first_on_bar-marks name sig table =
      elim (Bool-cases (already_acted name sig.symbol sig.timestamp table)) [
        | inl acted ↦ rw acted ((table, refl, acted), λ e. refl)
        | inr fresh ↦ rw fresh (
          (_, refl, already_acted-remember name sig.symbol sig.timestamp sig.type table),
          λ e. cc e,
        )
      ]

  on_levels-IsMarked :
      (clk : Clock F) (name : String) (regime : Option String) (sig : Signal F) (sl tp : Option F)
      (table : DedupTable) (b : Bot F E)
      → clk.dedup ≡ DedupAnswer.answers
      → sl ≢ none
      → tp ≢ none
      → b.signal_dedup_store ≡ some table
      → IsMarked name sig (on_levels ex pips clk name regime sig sl tp b).1
  on_levels-IsMarked clk name regime sig none tp table b works has_sl has_tp store =
      absurd (has_sl refl)
  on_levels-IsMarked clk name regime sig (some sl) none table b works has_sl has_tp store =
      absurd (has_tp refl)
  on_levels-IsMarked clk name regime sig (some sl) (some tp) table b works has_sl has_tp store =
      let (mark, seen) = first_on_bar-marks name sig table in
      let run = λ (a : DedupAnswer) (o : Option DedupTable).
        IsMarked name sig
          (if_first ex pips clk name regime sig sl tp (first_on_bar a name sig o) b).1 in
      subst (λ a. run a b.signal_dedup_store) (sym works)
        (subst (run DedupAnswer.answers) (sym store) (
          if_first-IsMarked clk name sig name regime sig sl tp
            (first_on_bar DedupAnswer.answers name sig (some table)) b (λ e. (table, store, seen e))
            mark))

  on_levels-keeps :
      (clk : Clock F) (name : String) (sig : Signal F) (other : String) (regime : Option String)
      (again : Signal F) (sl tp : Option F) (b : Bot F E)
      → IsApart name sig other again
      → IsMarked name sig b
      → IsMarked name sig (on_levels ex pips clk other regime again sl tp b).1
  on_levels-keeps clk name sig other regime again none tp b h m = m
  on_levels-keeps clk name sig other regime again (some sl) none b h m = m
  on_levels-keeps clk name sig other regime again (some sl) (some tp) b h (table, store, acted) =
      if_first-IsMarked clk name sig other regime again sl tp
        (first_on_bar clk.dedup other again b.signal_dedup_store) b (λ e. (table, store, acted))
        (subst (λ o. HasMark name sig (first_on_bar clk.dedup other again o).1) (sym store)
          (first_on_bar-HasMark clk.dedup name other sig again table h acted))

  on_levels-marked :
      (clk : Clock F) (name : String) (regime : Option String) (sig : Signal F) (sl tp : Option F)
      (b : Bot F E)
      → clk.dedup ≢ DedupAnswer.check_raises
      → IsMarked name sig b
      → on_levels ex pips clk name regime sig sl tp b ≡ (ok false, b)
  on_levels-marked clk name regime sig none tp b checks h = refl
  on_levels-marked clk name regime sig (some sl) none b checks h = refl
  on_levels-marked clk name regime sig (some sl) (some tp) b checks (table, store, acted) =
      ap (λ p. if_first ex pips clk name regime sig sl tp p b)
        (ap (first_on_bar clk.dedup name sig) store
          ∙ first_on_bar-seen clk.dedup name sig table checks acted)

  abbrev pub after_signals : List (Handled F) → Bot F E → Bot F E
  after_signals [] b = b
  after_signals (h ∷ hs) b =
      after_signals hs (handle_signal ex pips h.clk h.name h.regime h.sig b).1

  after_signals-IsMarked :
      (name : String) (sig : Signal F) (hs : List (Handled F)) (b : Bot F E)
      → All (λ (h : Handled F). IsApart name sig h.name h.sig) hs
      → IsMarked name sig b
      → IsMarked name sig (after_signals hs b)
  unfolding handle_signal
  after_signals-IsMarked name sig [] b apart m = m
  after_signals-IsMarked name sig (h ∷ hs) b (here, rest) m =
      after_signals-IsMarked name sig hs _ rest (
        on_levels-keeps h.clk name sig h.name h.regime h.sig h.sig.stop_loss h.sig.take_profit b
          here m)

  -- A bot that keeps a deduplication store acts at most once on a bar: when a strategy's signal with a
  -- stop and a target has been handled with a store that answers, with whatever result, and after it any
  -- signals of other strategies, of other symbols or of this bar, whether the store answered them or
  -- raised, then any signal of the same strategy, symbol and bar for which the check does not raise is
  -- refused and changes nothing.
  pub handle_signal_once :
      (clk later : Clock F) (name : String) (regime other : Option String) (sig again : Signal F)
      (between : List (Handled F)) (table : DedupTable) (b : Bot F E)
      → clk.dedup ≡ DedupAnswer.answers
      → sig.stop_loss ≢ none
      → sig.take_profit ≢ none
      → b.signal_dedup_store ≡ some table
      → All (λ (h : Handled F). IsApart name sig h.name h.sig) between
      → later.dedup ≢ DedupAnswer.check_raises
      → again.symbol ≡ sig.symbol
      → again.timestamp ≡ sig.timestamp
      → let b' = after_signals between (handle_signal ex pips clk name regime sig b).1 in
        handle_signal ex pips later name other again b' ≡ (ok false, b')
  unfolding handle_signal
  handle_signal_once clk later name regime other sig again between table b works has_sl has_tp store
        apart checks same_symbol same_bar =
      let first =
        on_levels-IsMarked clk name regime sig sig.stop_loss sig.take_profit table b works has_sl
          has_tp store in
      let (table', kept, acted) = after_signals-IsMarked name sig between _ apart first in
      on_levels-marked later name other again again.stop_loss again.take_profit _ checks
        (table', kept, rw (same_symbol, same_bar) acted)
