-- ===== src/Bot/Alerts.antt =====
-- The alerts of the bot and their throttles: `_send_signal_alert` and `_maybe_send_setup_alert` of
-- src/bot.py.
pub mod Spacing
use forex_ea.Prelude.{
  ℕ, Bool, true, false, Option, none, some, List, [], ◌∷◌, ◌++◌, String, not, ◌&&◌, if◌then◌else◌,
}
use forex_ea.Table.{Table, Eq, lookup, upsert, string_eq, pair_eq}
use forex_ea.Execution.{Signal, SignalType, side_eq, elapsed_lt}
use forex_ea.Bot.{Bot, Message, Gate}

abbrev setup_window : ℕ
setup_window = 3_600

abbrev signal_window : ℕ
signal_window = 1_800

-- `last is not None and (now - last).total_seconds() < window`
abbrev pub is_recent : ℕ → ℕ → Option ℕ → Bool
is_recent now window none = false
is_recent now window (some last) = elapsed_lt now last window

module _ {K : Type 0} ⦃e : Eq K⦄ where
  -- The table of last alerts, after one more attempt, and whether it is sent.
  unfoldable pub throttle : K → ℕ → ℕ → Table K ℕ → Bool × Table K ℕ
  throttle key window now table =
      if is_recent now window (lookup key table)
      then (false, table)
      else (true, upsert key now table)

module _ {F E : Type 0} where
  abbrev say : Bool → Message F → Bot F E → Bot F E
  say sent m b = if sent then record b { messages = b.messages ++ m ∷ [] } else b

  unfoldable pub send_signal_alert : Signal F → String → ℕ → Bot F E → Bot F E
  unfolding throttle
  send_signal_alert sig strategy now b =
      let (sent, table) =
        throttle ((strategy, sig.symbol), sig.type) signal_window now b.last_signal_alert in
      if b.notifies
      then say sent (Message.signal_alert strategy sig) (record b { last_signal_alert = table })
      else b

  unfoldable pub send_setup_alert : String → String → SignalType → Gate F → ℕ → Bot F E → Bot F E
  unfolding throttle
  send_setup_alert strategy symbol side gate now b =
      let (sent, table) = throttle (strategy, symbol) setup_window now b.last_setup_alert in
      if b.notifies
      then say sent (Message.setup_alert strategy symbol side gate)
          (record b { last_setup_alert = table })
      else b
