-- ===== src/Calendar/Blackout.antt =====
-- Which event blocks a symbol: `BlackoutChecker.current_blackout` of src/econ_calendar/blackout.py.
use text.Mathlib.TextEquality.{eq_iff}
use forex_ea.Prelude.{
  ℕ, ◌+◌, ◌*◌, ◌≤◌, ◌≡◌, refl, sym, ◌⊎◌, ◌↔◌, Bool, true, false, ◌||◌, Option, none, some, List, [],
  ◌∷◌, String, arith, leb, inl, inr, Bool-cases, All, Any, select, head?, is_empty, All-imp,
  All-const,
}
use forex_ea.Execution.{second}
use forex_ea.Calendar.{
  CalendarEvent, BlackoutPolicy, EventTable, is_in, in_window, by_time, insert_event,
  events_in_window, current_blackout,
}
use forex_ea.Calendar.Symbols.{currencies_for_symbol}

-- The event that stands first is one of the list, and none is earlier.
abbrev IsFirst : List CalendarEvent → Option CalendarEvent → Type 0
IsFirst es none = es ≡ []
IsFirst es (some e) =
    Any (λ d. d ≡ e) es × All (λ (d : CalendarEvent). e.event_time ≤ d.event_time) es

head?-insert_event :
    (e : CalendarEvent) (es sorted : List CalendarEvent)
    → IsFirst es (head? sorted)
    → IsFirst (e ∷ es) (head? (insert_event e sorted))
unfolding insert_event
head?-insert_event e es [] h = (inl refl, (omega arith, rw h tt))
head?-insert_event e es (d ∷ sorted) h = elim (Bool-cases (leb e.event_time d.event_time)) [
  | inl le ↦
      rw le (inl refl, (omega arith, All-imp es (λ (x : CalendarEvent) hx. ground arith) h.1))
  | inr gt ↦ rw gt (inr h.0, (ground arith, h.1))
]

head?-by_time : (es : List CalendarEvent) → IsFirst es (head? (by_time es))
unfolding by_time
head?-by_time [] = refl
head?-by_time (e ∷ es) = head?-insert_event e es (by_time es) (head?-by_time es)

-- An event that blocks: its currency and its impact are listed, and the instant is in the window
-- around it, whose two ends are included.
abbrev pub IsBlocking : BlackoutPolicy → List String → ℕ → CalendarEvent → Type 0
IsBlocking pol ccys now e =
    now ≤ e.event_time + pol.after_min * (60 * second)
    × e.event_time ≤ now + pol.before_min * (60 * second)
    × Any (λ c. e.currency ≡ c) ccys
    × Any (λ i. e.impact ≡ i) pol.impacts

is_in_iff : (s : String) (ts : List String) → (is_in s ts ≡ true) ↔ Any (λ t. s ≡ t) ts
is_in_iff s [] = ground arith
is_in_iff s (t ∷ ts) = ground (arith, eq_iff s t, is_in_iff s ts)

in_window_iff :
    (pol : BlackoutPolicy) (now : ℕ) (ccys : List String) (e : CalendarEvent)
    → (in_window pol now ccys e ≡ true) ↔ IsBlocking pol ccys now e
in_window_iff pol now ccys e =
    ground (arith, is_in_iff e.currency ccys, is_in_iff e.impact pol.impacts)

-- What the checker owes its caller: no event blocks, or one of the table that blocks and that no
-- blocking event precedes.
abbrev pub IsVerdict : BlackoutPolicy → List String → ℕ → EventTable → Option CalendarEvent → Type 0
IsVerdict pol ccys now table none = All (λ e. ¬ IsBlocking pol ccys now e) table
IsVerdict pol ccys now table (some e) =
    Any (λ d. d ≡ e) table
    × IsBlocking pol ccys now e
    × All (λ (d : CalendarEvent). (¬ IsBlocking pol ccys now d) ⊎ e.event_time ≤ d.event_time) table

Any-select :
    (p : CalendarEvent → Bool) (e : CalendarEvent) (es : List CalendarEvent)
    → Any (λ d. d ≡ e) (select p es)
    → Any (λ d. d ≡ e) es × (p e ≡ true)
Any-select p e [] h = elim h [ ]
Any-select p e (d ∷ es) h = elim (Bool-cases (p d)) [
  | inl holds ↦ elim (rw holds at h) [
    | inl same ↦ (inl same, rw (sym same) holds)
    | inr later ↦ let (i, t) = Any-select p e es later in (inr i, t)
  ]
  | inr fails ↦ let (i, t) = Any-select p e es (rw fails at h) in (inr i, t)
]

All-select :
    (P : CalendarEvent → Type 0) (p : CalendarEvent → Bool) (es : List CalendarEvent)
    → All P (select p es)
    → All (λ d. (p d ≡ false) ⊎ P d) es
All-select P p [] h = tt
All-select P p (d ∷ es) h = elim (Bool-cases (p d)) [
  | inl holds ↦ let h' = rw holds at h in (inr h'.0, All-select P p es h'.1)
  | inr fails ↦ (inl fails, All-select P p es (rw fails at h))
]

events-IsVerdict :
    (pol : BlackoutPolicy) (ccys : List String) (now : ℕ) (table : EventTable)
    (o : Option CalendarEvent)
    → IsFirst (select (in_window pol now ccys) table) o
    → IsVerdict pol ccys now table o
events-IsVerdict pol ccys now table none h =
    All-imp table
      (λ d hd. elim hd [
        | inl fails ↦ λ blocks. ground (arith, fails, in_window_iff pol now ccys d)
        | inr impossible ↦ absurd impossible
      ])
      (All-select (λ d. ⊥) (in_window pol now ccys) table (rw h tt))
events-IsVerdict pol ccys now table (some e) h =
    let (i, t) = Any-select (in_window pol now ccys) e table h.0 in
    (
      i,
      (in_window_iff pol now ccys e).0 t,
      All-imp table
          (λ d hd. elim hd [
            | inl fails ↦ inl (λ blocks. ground (arith, fails, in_window_iff pol now ccys d))
            | inr later ↦ inr later
          ])
          (All-select _ (in_window pol now ccys) table h.1),
    )

-- Nothing stands in a list that is empty.
unlisted :
    (P Q : String → Type 0) (xs ys : List String)
    → (is_empty xs || is_empty ys) ≡ true
    → Any P xs
    → ¬ Any Q ys
unlisted P Q [] ys h p q = p
unlisted P Q (x ∷ xs) [] h p q = q
unlisted P Q (x ∷ xs) (y ∷ ys) h p q = cc

head?-events_in_window :
    (pol : BlackoutPolicy) (ccys : List String) (now : ℕ) (table : EventTable)
    → IsVerdict pol ccys now table (head? (events_in_window pol now ccys table))
unfolding events_in_window
head?-events_in_window pol ccys now table =
    elim (Bool-cases (is_empty ccys || is_empty pol.impacts)) [
      | inl bare ↦ rw bare (All-const table (λ e h. unlisted _ _ ccys pol.impacts bare h.2 h.3))
      | inr listed ↦ rw listed (
          events-IsVerdict pol ccys now table _
            (head?-by_time (select (in_window pol now ccys) table)))
    ]

-- While the blackout is enabled, the checker reports no event exactly when no event of the table has a
-- currency of the symbol, a listed impact and a window (both ends included) around the instant; what
-- it reports is such an event, and the earliest of them.
pub current_blackout-IsVerdict :
    (pol : BlackoutPolicy) (table : EventTable) (symbol : String) (now : ℕ)
    → pol.enabled ≡ true
    → IsVerdict pol (currencies_for_symbol symbol) now table (current_blackout pol table symbol now)
unfolding current_blackout
current_blackout-IsVerdict pol table symbol now on =
    rw on (head?-events_in_window pol (currencies_for_symbol symbol) now table)
