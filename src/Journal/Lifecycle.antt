-- ===== src/Journal/Lifecycle.antt =====
-- Each trade of the journal by itself: src/execution/journal.py.
use mathlib.Core.Option
use forex_ea.Prelude.{
  ℕ, ◌≡◌, refl, ap, ◌∙◌, Bool, true, false, Option, none, some, List, [], ◌∷◌, ◌++◌, String, foldl,
  nat_beq, nat_beq_iff, arith, if◌then◌else◌, Option-cases, Bool-cases, inl, inr,
}
use forex_ea.Table.{Table, lookup, nat_eq}
use forex_ea.Result.{Result, ok, err}
use forex_ea.Float.{Float}
use forex_ea.Execution.{Order}
use forex_ea.Journal.{
  Trade, Journal, CloseInfo, update_where, opened_row, modify_row, close_row, settle_row,
  is_open_ticket, insert_row, record_open, record_modify, record_close, mark_closed_by_ticket,
}

-- The calls that write the journal, with their arguments.
pub data Call (F : Type 0) : Type 0 where
  opened : Order F → Call F
  modified : ℕ → Option F → Option F → ℕ → Call F
  closing : Order F → Call F
  marked : ℕ → CloseInfo F → String → Call F

pub lookup-update_where :
    {V : Type 0} (p : ℕ → V → Bool) (change : V → V) (id : ℕ) (t : Table ℕ V)
    → lookup id (update_where p change t)
      ≡ Option.map (λ row. if p id row then change row else row) (lookup id t)
lookup-update_where p change id [] = refl
lookup-update_where p change id ((j, row) ∷ t) =
    ground (arith, nat_beq_iff j id, lookup-update_where p change id t)

lookup-append :
    {V : Type 0} (id key : ℕ) (v : V) (t : Table ℕ V)
    → lookup key t ≡ none
    → lookup id (t ++ (key, v) ∷ []) ≡ (if nat_beq key id then some v else lookup id t)
lookup-append id key v [] h = refl
lookup-append id key v ((j, row) ∷ t) h =
    ground
      (arith, nat_beq_iff j id, nat_beq_iff j key, nat_beq_iff key id, lookup-append id key v t)

module _ {F : Type 0} ⦃f : Float F⦄ where
  -- A call that raises leaves the journal as it was.
  abbrev pub kept : Journal F → Result (Journal F) → Journal F
  kept j (ok j') = j'
  kept j (err raised) = j

  abbrev pub perform : Journal F → Call F → Journal F
  perform j (opened o) = kept j (record_open o j)
  perform j (modified id stop_loss take_profit now) = record_modify id stop_loss take_profit now j
  perform j (closing o) = record_close o j
  perform j (marked ticket info reason) = mark_closed_by_ticket ticket info reason j

  -- What the call means for the trade of one key, without a table: it is opened once, and changes only
  -- where the call names it.
  abbrev pub when : Bool → (Trade F → Trade F) → Option (Trade F) → Option (Trade F)
  when b change none = none
  when b change (some t) = some (if b then change t else t)

  abbrev pub first : Bool → Trade F → Option (Trade F) → Option (Trade F)
  first b row (some t) = some t
  first b row none = if b then some row else none

  abbrev pub settled : ℕ → CloseInfo F → String → Option (Trade F) → Option (Trade F)
  settled ticket info reason none = none
  settled ticket info reason (some t) =
      some (if is_open_ticket ticket 0 t then settle_row info reason t else t)

  abbrev pub live : ℕ → Option (Trade F) → Call F → Option (Trade F)
  live id t (opened o) = first (nat_beq o.id id) (opened_row o) t
  live id t (modified trade_id stop_loss take_profit now) =
      when (nat_beq id trade_id) (modify_row stop_loss take_profit) t
  live id t (closing o) = when (nat_beq id o.id) (close_row o) t
  live id t (marked ticket info reason) = settled ticket info reason t

  first_free :
      (b : Bool) (row : Trade F) (t : Option (Trade F))
      → (b ≡ true → t ≡ none)
      → (if b then some row else t) ≡ first b row t
  first_free true row t h = rw (h refl) refl
  first_free false row none h = refl
  first_free false row (some t) h = refl

  first_key :
      (id key : ℕ) (row taken : Trade F) (j : Journal F)
      → lookup key j.trades ≡ some taken
      → lookup id j.trades ≡ first (nat_beq key id) row (lookup id j.trades)
  first_key id key row taken j h = elim (Bool-cases (nat_beq key id)) [
    | inl same ↦ let e : key ≡ id = (nat_beq_iff key id).0 same in rw (rw e at h) refl
    | inr other ↦ rw other (first_free false row (lookup id j.trades) (λ k. cc k))
  ]

  lookup-insert_row :
      (id key : ℕ) (row : Trade F) (j : Journal F)
      → lookup id (kept j (insert_row key row j (lookup key j.trades))).trades
        ≡ first (nat_beq key id) row (lookup id j.trades)
  lookup-insert_row id key row j = elim (Option-cases (lookup key j.trades)) [
    | inl free ↦ rw free (
        lookup-append id key row j.trades free
        ∙ first_free (nat_beq key id) row (lookup id j.trades)
            (λ same. rw ((nat_beq_iff key id).0 same) at free))
    | inr (taken, found) ↦ rw found (first_key id key row taken j found)
  ]

  map-when :
      (b : Bool) (change : Trade F → Trade F) (t : Option (Trade F))
      → Option.map (λ row. if b then change row else row) t ≡ when b change t
  map-when b change none = refl
  map-when b change (some t) = refl

  map-settled :
      (id ticket : ℕ) (info : CloseInfo F) (reason : String) (t : Option (Trade F))
      → Option.map
          (λ row. if is_open_ticket ticket id row then settle_row info reason row else row)
          t
        ≡ settled ticket info reason t
  map-settled id ticket info reason none = refl
  map-settled id ticket info reason (some t) = refl

  lookup-perform :
      (id : ℕ) (j : Journal F) (c : Call F)
      → lookup id (perform j c).trades ≡ live id (lookup id j.trades) c
  unfolding record_open record_modify record_close mark_closed_by_ticket
  lookup-perform id j (opened o) = lookup-insert_row id o.id (opened_row o) j
  lookup-perform id j (modified trade_id stop_loss take_profit now) =
      lookup-update_where (λ i t. nat_beq i trade_id) (modify_row stop_loss take_profit) id j.trades
      ∙ map-when (nat_beq id trade_id) (modify_row stop_loss take_profit) (lookup id j.trades)
  lookup-perform id j (closing o) =
      lookup-update_where (λ i t. nat_beq i o.id) (close_row o) id j.trades
      ∙ map-when (nat_beq id o.id) (close_row o) (lookup id j.trades)
  lookup-perform id j (marked ticket info reason) =
      lookup-update_where (is_open_ticket ticket) (settle_row info reason) id j.trades
      ∙ map-settled id ticket info reason (lookup id j.trades)

  -- After any calls, the row of a key is the one that the calls make of this key's row alone.
  pub lookup-perform_all :
      (id : ℕ) (calls : List (Call F)) (j : Journal F)
      → lookup id (foldl perform j calls).trades ≡ foldl (live id) (lookup id j.trades) calls
  lookup-perform_all id [] j = refl
  lookup-perform_all id (c ∷ calls) j =
      lookup-perform_all id calls (perform j c)
      ∙ ap (λ t. foldl (live id) t calls) (lookup-perform id j c)
