-- ===== src/Bot/Alerts/Spacing.antt =====
-- How far apart the alerts of one key are: the throttles of `_send_signal_alert` and
-- `_maybe_send_setup_alert` of src/bot.py.
use forex_ea.Prelude.{
  ℕ, ◌+◌, ◌*◌, ◌≤◌, ◌≡◌, refl, ap, ◌∙◌, true, false, Option, none, some, List, [], ◌∷◌, ◌&&◌, arith,
  if◌then◌else◌, String, map, length, length-append, ltb, false, ◌++◌, Bool-cases, inl, inr,
}
use forex_ea.Table.{Table, Eq, string_eq, pair_eq, ◌==◌, lookup, upsert, lookup-upsert}
use forex_ea.Execution.{SignalType, second, elapsed_lt}
use forex_ea.Bot.{Bot, Gate, Message}
use forex_ea.Bot.Alerts.{throttle, is_recent, send_setup_alert}

-- Each alert comes at least the window after the one before.
abbrev pub IsSpaced : ℕ → Option ℕ → List ℕ → Type 0
IsSpaced window last [] = Unit
IsSpaced window none (now ∷ sent) = IsSpaced window (some now) sent
IsSpaced window (some last) (now ∷ sent) =
    (last + window * second ≤ now) × IsSpaced window (some now) sent

-- The throttle of a single key: an attempt is sent unless the last one that was is too recent.
abbrev pub greedy : ℕ → Option ℕ → List ℕ → List ℕ
greedy window last [] = []
greedy window last (now ∷ attempts) =
    if is_recent now window last
    then greedy window last attempts
    else now ∷ greedy window (some now) attempts

IsSpaced-greedy :
    (window : ℕ) (last : Option ℕ) (attempts : List ℕ)
    → IsSpaced window last (greedy window last attempts)
IsSpaced-greedy window none [] = tt
IsSpaced-greedy window (some last) [] = tt
IsSpaced-greedy window none (now ∷ attempts) = IsSpaced-greedy window (some now) attempts
IsSpaced-greedy window (some last) (now ∷ attempts) =
    elim (Bool-cases (elapsed_lt now last window)) [
      | inl recent ↦ rw recent (IsSpaced-greedy window (some last) attempts)
      | inr late ↦ rw late (ground arith, IsSpaced-greedy window (some now) attempts)
    ]

module _ {K : Type 0} ⦃e : Eq K⦄ where
  -- The instants of the attempts of one key, and of those that are sent.
  abbrev pub attempts_of : K → List (K × ℕ) → List ℕ
  attempts_of k [] = []
  attempts_of k ((j, now) ∷ tries) =
      if j == k then now ∷ attempts_of k tries else attempts_of k tries

  abbrev pub sent_of : K → ℕ → List (K × ℕ) → Table K ℕ → List ℕ
  sent_of k window [] table = []
  sent_of k window ((j, now) ∷ tries) table =
      let (sent, table') = throttle j window now table in
      let rest = sent_of k window tries table' in if j == k && sent then now ∷ rest else rest

  sent_of-greedy :
      (k : K) (window : ℕ) (tries : List (K × ℕ)) (table : Table K ℕ)
      → sent_of k window tries table ≡ greedy window (lookup k table) (attempts_of k tries)
  unfolding throttle
  sent_of-greedy k window [] table = refl
  sent_of-greedy k window ((j, now) ∷ tries) table =
      let held = sent_of-greedy k window tries table in
      let moved = sent_of-greedy k window tries (upsert j now table) in
      elim (Bool-cases (is_recent now window (lookup j table))) [
        | inl recent ↦ elim (Bool-cases (j == k)) [
          | inl same ↦
              let own : is_recent now window (lookup k table) ≡ true =
                rw ((e.beq_iff j k).0 same) at recent in
              rw (same, recent, own) held
          | inr other ↦ rw (other, recent) held
        ]
        | inr late ↦ elim (Bool-cases (j == k)) [
          | inl same ↦
              let own : is_recent now window (lookup k table) ≡ false =
                rw ((e.beq_iff j k).0 same) at late in
              let stored : lookup k (upsert j now table) ≡ some now =
                lookup-upsert j k now table ∙ rw same refl in
              rw (same, late, own) (ap (λ ns. now ∷ ns) (rw stored at moved))
          | inr other ↦
              let kept : lookup k (upsert j now table) ≡ lookup k table =
                lookup-upsert j k now table ∙ rw other refl in
              rw (other, late) (rw kept at moved)
        ]
      ]

  sent_of-IsSpaced :
      (k : K) (window : ℕ) (tries : List (K × ℕ)) (table : Table K ℕ)
      → (sent_of k window tries table ≡ greedy window (lookup k table) (attempts_of k tries))
        × IsSpaced window (lookup k table) (sent_of k window tries table)
  sent_of-IsSpaced k window tries table =
      let same = sent_of-greedy k window tries table in
      (same, rw same (IsSpaced-greedy window (lookup k table) (attempts_of k tries)))

-- A call of `_maybe_send_setup_alert`.
pub record SetupCall (F : Type 0) : Type 0 where
  pub strategy : String
  pub symbol : String
  pub side : SignalType
  pub gate : Gate F
  pub now : ℕ

abbrev pub key_of : {F : Type 0} → SetupCall F → (String × String) × ℕ
key_of a = ((a.strategy, a.symbol), a.now)

ltb_self : (n : ℕ) → ltb n n ≡ false
ltb_self n = ground arith

ltb_append :
    {F : Type 0} (ms : List (Message F)) (m : Message F)
    → ltb (length ms) (length (ms ++ m ∷ [])) ≡ true
ltb_append ms m = ground (arith, length-append ms (m ∷ []))

module _ {F E : Type 0} where
  abbrev pub alerted : SetupCall F → Bot F E → Bot F E
  alerted a b = send_setup_alert a.strategy a.symbol a.side a.gate a.now b

  -- When the notifier was called for the strategy and the symbol: the calls that left a message.
  abbrev pub alert_times : String × String → List (SetupCall F) → Bot F E → List ℕ
  alert_times k [] b = []
  alert_times k (a ∷ calls) b =
      let b' = alerted a b in
      let rest = alert_times k calls b' in
      if (a.strategy, a.symbol) == k && ltb (length b.messages) (length b'.messages)
      then a.now ∷ rest
      else rest

  -- A call of a bot with a notifier leaves one message if the throttle lets it pass, and none if not.
  alerted-throttle :
      (a : SetupCall F) (b : Bot F E)
      → b.notifies ≡ true
      → let r = throttle (a.strategy, a.symbol) 3_600 a.now b.last_setup_alert in
        ((alerted a b).notifies ≡ true)
        × ((alerted a b).last_setup_alert ≡ r.1)
        × (ltb (length b.messages) (length (alerted a b).messages) ≡ r.0)
  unfolding send_setup_alert throttle
  alerted-throttle a b on =
      let key : String × String = (a.strategy, a.symbol) in
      elim (Bool-cases (is_recent a.now 3_600 (lookup key b.last_setup_alert))) [
        | inl recent ↦ rw (on, recent) (refl, refl, ltb_self (length b.messages))
        | inr late ↦
            rw (on, late)
              (
                refl,
                refl,
                ltb_append b.messages (Message.setup_alert a.strategy a.symbol a.side a.gate),
              )
      ]

  alert_times-sent_of :
      (k : String × String) (calls : List (SetupCall F)) (b : Bot F E)
      → b.notifies ≡ true
      → alert_times k calls b ≡ sent_of k 3_600 (map key_of calls) b.last_setup_alert
  alert_times-sent_of k [] b on = refl
  alert_times-sent_of k (a ∷ calls) b on =
      let (still, table, sent) = alerted-throttle a b on in
      rw (sent, alert_times-sent_of k calls (alerted a b) still, table) refl

  -- Whatever setup alerts a bot with a notifier is asked for, whatever their strategies and symbols and
  -- whatever the clock reads, two messages for one strategy and symbol that follow each other are at
  -- least an hour apart, the one before the calls counted; and every call for them is sent that comes an
  -- hour after the last message, so that alerts of other strategies and symbols suppress none.
  pub alert_times-IsSpaced :
      (k : String × String) (calls : List (SetupCall F)) (b : Bot F E)
      → b.notifies ≡ true
      → let last = lookup k b.last_setup_alert in
        (alert_times k calls b ≡ greedy 3_600 last (attempts_of k (map key_of calls)))
        × IsSpaced 3_600 last (alert_times k calls b)
  alert_times-IsSpaced k calls b on =
      rw (alert_times-sent_of k calls b on)
        (sent_of-IsSpaced k 3_600 (map key_of calls) b.last_setup_alert)
