-- ===== src/Bot/Opening/Stored.antt =====
-- What follows the deduplication in `_handle_signal` of src/bot.py leaves its store alone.
use forex_ea.Prelude.{ℕ, ◌≡◌, Bool, true, false, Option, none, some, String, if◌then◌else◌}
use forex_ea.Table.{◌==◌, string_eq}
use forex_ea.Result.{Result, ok, err}
use forex_ea.Float.{Float}
use forex_ea.Execution.{Order, Signal, SignalType}
use forex_ea.Risk.Sizing.{Pips}
use forex_ea.Risk.Manager.{RiskDecision}
use forex_ea.Journal.{Journal, record_open}
use forex_ea.Controls.SignalDedup.{DedupTable}
use forex_ea.Controls.Toggles.{mode_signal}
use forex_ea.Bot.{Bot, Executor, Clock, Gate}
use forex_ea.Bot.Alerts.{send_signal_alert, send_setup_alert}
use forex_ea.Bot.Opening.{
  by_mode, unless_opposite, assess, act_on, place_at, book, is_rejected, strategy_mode,
}

module _ {F : Type 0} {E : Type 0} where
  -- The store is still the given one.
  abbrev pub Still : Option DedupTable → Bot F E → Type 0
  Still s b = b.signal_dedup_store ≡ s

  Still-if :
      (s : Option DedupTable) (c : Bool) (x y : Bot F E)
      → Still s x
      → Still s y
      → Still s (if c then x else y)
  Still-if s true x y h k = h
  Still-if s false x y h k = k

  Still-pair :
      (s : Option DedupTable) (c : Bool) (x y : Result Bool × Bot F E)
      → Still s x.1
      → Still s y.1
      → Still s (if c then x else y).1
  Still-pair s true x y h k = h
  Still-pair s false x y h k = k

  setup-Still :
      (s : Option DedupTable) (strategy symbol : String) (side : SignalType) (gate : Gate F)
      (now : ℕ) (b : Bot F E)
      → Still s b
      → Still s (send_setup_alert strategy symbol side gate now b)
  unfolding send_setup_alert
  setup-Still s strategy symbol side gate now b h =
      Still-if s b.notifies _ b (Still-if s _ _ _ h h) h

  signal-Still :
      (s : Option DedupTable) (sig : Signal F) (strategy : String) (now : ℕ) (b : Bot F E)
      → Still s b
      → Still s (send_signal_alert sig strategy now b)
  unfolding send_signal_alert
  signal-Still s sig strategy now b h = Still-if s b.notifies _ b (Still-if s _ _ _ h h) h

module _ {F : Type 0} ⦃f : Float F⦄ {E : Type 0} (ex : Executor F E) (pips : Pips F) (clk : Clock F)
    (s : Option DedupTable) where
  book-Still :
      (name : String) (o : Order F) (balance : F) (r : Result (Journal F)) (b : Bot F E)
      → Still s b
      → Still s (book ex pips clk name o balance r b).1
  book-Still name o balance (err raised) b h = h
  book-Still name o balance (ok j) b h = Still-if s b.notifies _ _ h h

  place_at-Still :
      (name : String) (requested : F) (order : Order F) (balance : Result F) (b : Bot F E)
      → Still s b
      → Still s (place_at ex pips clk name requested order balance b).1
  place_at-Still name requested order (err raised) b h = h
  place_at-Still name requested order (ok balance) b h =
      let o = (ex.place order b.executor).0 in
      Still-pair s (is_rejected o.status) _ _ h
        (book-Still name o balance (record_open o b.journal) _ h)

  act_on-Still :
      (name : String) (regime : Option String) (sig : Signal F) (sl tp weight : F)
      (r : Result (RiskDecision F)) (b : Bot F E)
      → Still s b
      → Still s (act_on ex pips clk name regime sig sl tp weight r b).1
  act_on-Still name regime sig sl tp weight (err raised) b h = h
  act_on-Still name regime sig sl tp weight (ok d) b h =
      Still-pair s d.approved _ _
        (place_at-Still name sig.price _ (ex.account_balance b.executor) b h)
        (setup-Still s name sig.symbol sig.type _ clk.alerted_at b h)

  assess-Still :
      (name : String) (regime : Option String) (sig : Signal F) (sl tp weight : F)
      (stop_distance balance : Result F) (b : Bot F E)
      → Still s b
      → Still s (assess ex pips clk name regime sig sl tp weight stop_distance balance b).1
  assess-Still name regime sig sl tp weight (err raised) balance b h = h
  assess-Still name regime sig sl tp weight (ok distance) (err raised) b h = h
  assess-Still name regime sig sl tp weight (ok distance) (ok balance) b h =
      act_on-Still name regime sig sl tp weight _ _ h

  unless_opposite-Still :
      (name : String) (regime : Option String) (sig : Signal F) (sl tp : F) (o : Option SignalType)
      (b : Bot F E)
      → Still s b
      → Still s (unless_opposite ex pips clk name regime sig sl tp o b).1
  unless_opposite-Still name regime sig sl tp (some side) b h =
      setup-Still s name sig.symbol sig.type _ clk.alerted_at b h
  unless_opposite-Still name regime sig sl tp none b h =
      assess-Still name regime sig sl tp _ _ _ b h

  pub by_mode-Still :
      (name : String) (regime : Option String) (sig : Signal F) (sl tp : F) (b : Bot F E)
      → Still s b
      → Still s (by_mode ex pips clk name regime sig sl tp b).1
  by_mode-Still name regime sig sl tp b h =
      Still-pair s (strategy_mode name b.toggle_store == mode_signal) _ _
        (signal-Still s sig name clk.alerted_at b h)
        (unless_opposite-Still name regime sig sl tp _ b h)
