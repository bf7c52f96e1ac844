-- ===== src/Persistence/SqliteStore/Rows.antt =====
-- The rows of the table `pins`, and what a queued write does to them:
-- src/infrastructure/persistence/sqlite-store.ts.
use pi_smart_router.Prelude.{
  ◌≡◌, refl, sym, ap, ◌∙◌, String, Bool, true, false, not, Option, none, some, List, [], ◌∷◌, ◌++◌,
  filter, without_first, filter-without_first, ◌==◌, str_eq, if◌then◌else◌,
}
use pi_smart_router.Prelude.Table.{Table, get, get-set, get-delete}
use pi_smart_router.Types.{SessionPin}
use pi_smart_router.Persistence.WriteQueue.{
  WriteOp, put_pin, delete_pin, append_telemetry, append_dataset, append_outcome, is_durable,
}
use pi_smart_router.Persistence.SqliteStore.{
  PinRow, pin_query, pin_row_to_entity, row_of, on_conflict, insert_pin_row, delete_pin_row,
  Touched, Database, apply_ops, SqliteStore, pin_answer,
}

-- A pin that replaces a stored one keeps the time at which that was created.
abbrev pub replacing : Option SessionPin → SessionPin → SessionPin
replacing none pin = pin
replacing (some old) pin = record pin { created_at = old.created_at }

-- The pins that a table stores.
abbrev pub stored : Table PinRow → String → Option SessionPin
stored rows id = pin_answer (get id rows)

has_ever_switched_restored : (b : Bool) → ((if b then 1 else 0) == 1) ≡ b
has_ever_switched_restored true = refl
has_ever_switched_restored false = refl

-- A row reads back as the pin that it was written from.
row_restored : (pin : SessionPin) → pin_row_to_entity (row_of pin) ≡ pin
row_restored pin = rw (has_ever_switched_restored pin.has_ever_switched) refl

on_conflict-replacing :
    (old : Option PinRow) (pin : SessionPin)
    → pin_row_to_entity (on_conflict old (row_of pin)) ≡ replacing (pin_answer old) pin
on_conflict-replacing none pin = row_restored pin
on_conflict-replacing (some row) pin =
    ap (λ (p : SessionPin). record p { created_at = row.created_at }) (row_restored pin)

pin_answer-if :
    (b : Bool) (x y : Option PinRow)
    → pin_answer (if b then x else y) ≡ (if b then pin_answer x else pin_answer y)
pin_answer-if true x y = refl
pin_answer-if false x y = refl

pub stored-insert :
    (pin : SessionPin) (rows : Table PinRow) (id : String)
    → stored (insert_pin_row pin rows) id ≡ (
        if str_eq pin.session_id id
        then some (replacing (stored rows pin.session_id) pin)
        else stored rows id)
unfolding insert_pin_row
stored-insert pin rows id =
    rw (get-set, pin_answer-if, on_conflict-replacing (get pin.session_id rows) pin) refl

pub stored-delete :
    (gone : String) (rows : Table PinRow) (id : String)
    → stored (delete_pin_row gone rows) id ≡ (if str_eq gone id then none else stored rows id)
unfolding delete_pin_row
stored-delete gone rows id = rw (get-delete, pin_answer-if) refl

module _ {T D O : Type 0} where
  -- The pins after writes that are still queued.
  abbrev pub replay : List (WriteOp T D O) → Table PinRow → Table PinRow
  replay [] rows = rows
  replay (put_pin pin ∷ ops) rows = replay ops (insert_pin_row pin rows)
  replay (delete_pin id ∷ ops) rows = replay ops (delete_pin_row id rows)
  replay (append_telemetry entry ∷ ops) rows = replay ops rows
  replay (append_dataset entry ∷ ops) rows = replay ops rows
  replay (append_outcome entry ∷ ops) rows = replay ops rows

  pub replay-append :
      (xs ys : List (WriteOp T D O)) (rows : Table PinRow)
      → replay (xs ++ ys) rows ≡ replay ys (replay xs rows)
  replay-append [] ys rows = refl
  replay-append (put_pin pin ∷ xs) ys rows = replay-append xs ys _
  replay-append (delete_pin id ∷ xs) ys rows = replay-append xs ys _
  replay-append (append_telemetry entry ∷ xs) ys rows = replay-append xs ys rows
  replay-append (append_dataset entry ∷ xs) ys rows = replay-append xs ys rows
  replay-append (append_outcome entry ∷ xs) ys rows = replay-append xs ys rows

  -- Only durable writes touch the pins.
  replay-durable :
      (ops : List (WriteOp T D O)) (rows : Table PinRow)
      → replay (filter is_durable ops) rows ≡ replay ops rows
  replay-durable [] rows = refl
  replay-durable (put_pin pin ∷ ops) rows = replay-durable ops _
  replay-durable (delete_pin id ∷ ops) rows = replay-durable ops _
  replay-durable (append_telemetry entry ∷ ops) rows = replay-durable ops rows
  replay-durable (append_dataset entry ∷ ops) rows = replay-durable ops rows
  replay-durable (append_outcome entry ∷ ops) rows = replay-durable ops rows

  pub replay-without_first :
      (xs ys : List (WriteOp T D O)) (rows : Table PinRow)
      → without_first (λ queued. not (is_durable queued)) xs ≡ some ys
      → replay ys rows ≡ replay xs rows
  replay-without_first xs ys rows e =
      sym (replay-durable ys rows)
      ∙ ap (λ ops. replay ops rows) (filter-without_first is_durable xs ys e)
      ∙ replay-durable xs rows

  pub apply_ops-replay :
      (ops : List (WriteOp T D O)) (t : Touched) (db : Database T D O)
      → (apply_ops ops (t, db)).1.pins ≡ replay ops db.pins
  unfolding apply_ops
  apply_ops-replay [] t db = refl
  apply_ops-replay (put_pin pin ∷ ops) t db = apply_ops-replay ops _ _
  apply_ops-replay (delete_pin id ∷ ops) t db = apply_ops-replay ops _ _
  apply_ops-replay (append_telemetry entry ∷ ops) t db = apply_ops-replay ops _ _
  apply_ops-replay (append_dataset entry ∷ ops) t db = apply_ops-replay ops _ _
  apply_ops-replay (append_outcome entry ∷ ops) t db = apply_ops-replay ops _ _

  -- The pins that the store has promised: those stored, after what is pending.
  abbrev pub promised : SqliteStore T D O → Table PinRow
  promised r = replay r.0.pending r.1.pins

  -- A read changes nothing but by its flush.
  pub pin_query-state : (id : String) (x : Bool × SqliteStore T D O) → (pin_query id x).1 ≡ x.1
  pin_query-state id (true, r) = refl
  pin_query-state id (false, r) = refl
