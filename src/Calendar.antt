-- ===== src/Calendar.antt =====
-- The news blackout: src/econ_calendar/store.py and src/econ_calendar/blackout.py. The table of events
-- is a list in the order of its rows; an instant is in microseconds.
pub mod Symbols
pub mod Blackout
use text.Mathlib.Text.{◌==◌}
use forex_ea.Prelude.{
  ℕ, ◌+◌, ◌*◌, Bool, true, false, Option, none, some, List, [], ◌∷◌, String, not, ◌&&◌, ◌||◌,
  if◌then◌else◌, leb, ltb, nat_beq, select, length, is_empty, head?,
}
use forex_ea.Execution.{second}
use forex_ea.Calendar.Symbols.{currencies_for_symbol}

pub record CalendarEvent : Type 0 where
  pub event_time : ℕ
  pub currency : String
  pub impact : String
  pub title : String
  pub actual : Option String
  pub forecast : Option String
  pub previous : Option String
  pub source : String

pub record BlackoutPolicy : Type 0 where
  pub enabled : Bool
  pub before_min : ℕ
  pub after_min : ℕ
  pub impacts : List String

abbrev pub EventTable : Type 0
EventTable = List CalendarEvent

-- the primary key
abbrev pub same_key : CalendarEvent → CalendarEvent → Bool
same_key a b = nat_beq a.event_time b.event_time && (a.currency == b.currency && a.title == b.title)

upsert_event : CalendarEvent → EventTable → EventTable
upsert_event e [] = e ∷ []
upsert_event e (d ∷ ds) = if same_key d e then e ∷ ds else d ∷ upsert_event e ds

-- The table after the rows, and their number.
pub upsert_many : List CalendarEvent → EventTable → EventTable × ℕ
unfolding upsert_event
upsert_many [] table = (table, 0)
upsert_many (e ∷ es) table = let (t, n) = upsert_many es (upsert_event e table) in (t, n + 1)

pub purge_before : ℕ → EventTable → EventTable × ℕ
purge_before cutoff table = (
  select (λ e. not (ltb e.event_time cutoff)) table,
  length (select (λ e. ltb e.event_time cutoff) table),
)

abbrev pub is_in : String → List String → Bool
is_in s [] = false
is_in s (t ∷ ts) = s == t || is_in s ts

-- `ORDER BY event_time ASC`
unfoldable pub insert_event : CalendarEvent → List CalendarEvent → List CalendarEvent
insert_event e [] = e ∷ []
insert_event e (d ∷ ds) =
    if leb e.event_time d.event_time then e ∷ d ∷ ds else d ∷ insert_event e ds

unfoldable pub by_time : List CalendarEvent → List CalendarEvent
unfolding insert_event
by_time [] = []
by_time (e ∷ es) = insert_event e (by_time es)

-- `event_time >= now - after` and `event_time <= now + before`, with the minutes moved across.
abbrev pub in_window : BlackoutPolicy → ℕ → List String → CalendarEvent → Bool
in_window pol now ccys e =
    leb now (e.event_time + pol.after_min * (60 * second))
    && (leb e.event_time (now + pol.before_min * (60 * second))
        && (is_in e.currency ccys && is_in e.impact pol.impacts))

unfoldable pub events_in_window : BlackoutPolicy → ℕ → List String → EventTable → List CalendarEvent
unfolding by_time
events_in_window pol now ccys table =
    if is_empty ccys || is_empty pol.impacts
    then []
    else by_time (select (in_window pol now ccys) table)

abbrev is_upcoming : BlackoutPolicy → ℕ → List String → CalendarEvent → Bool
is_upcoming pol after ccys e =
    ltb after e.event_time && (is_in e.currency ccys && is_in e.impact pol.impacts)

pub next_event : BlackoutPolicy → ℕ → List String → EventTable → Option CalendarEvent
unfolding by_time
next_event pol after ccys table =
    if is_empty ccys || is_empty pol.impacts
    then none
    else head? (by_time (select (is_upcoming pol after ccys) table))

unfoldable pub current_blackout : BlackoutPolicy → EventTable → String → ℕ → Option CalendarEvent
unfolding events_in_window
current_blackout pol table symbol now =
    if not pol.enabled
    then none
    else head? (events_in_window pol now (currencies_for_symbol symbol) table)
