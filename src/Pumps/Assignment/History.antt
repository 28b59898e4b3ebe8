-- ===== src/Pumps/Assignment/History.antt =====
-- internal/pumps/pumps.go: assigning a pump moves no ticket in its life cycle.
use mathlib.Core.Option
use gatstogo.Base.{
  ℕ, ◌≡◌, refl, sym, subst, ap, ◌∙◌, Bool, true, Bool-cases, Option-cases, inl, inr, Option, none,
  some, List, arith, if◌then◌else◌,
}
use gatstogo.Error.{Error, no_working_pump, Result, ok, err}
use gatstogo.Db.Schema.{Db, TicketRow, PumpRow}
use gatstogo.Db.Table.{exists_where, find_where}
use gatstogo.Db.Table.Distinct.{Distinct}
use gatstogo.Tickets.Purchase.{same_id, same_reference, same_open_code}
use gatstogo.Db.Table.Laws.{find_where-update_where}
use gatstogo.Db.Statement.{connected}
use gatstogo.Tickets.Lifecycle.{is_ticket, status_of}
use gatstogo.Db.Statement.Keeps.{
  Keeps, Keeps-pure, Keeps-raise, Keeps-statement, Keeps-exec_returning, Keeps-bind,
  Keeps-attempt_then,
}
use gatstogo.Tickets.History.{stays, Evolves, From, From-update_where, All-of}
use gatstogo.Pumps.Board.{Pump, at_plant, insert_default, insert_pump, ensure_default}
use gatstogo.Pumps.Assignment.{
  candidate, is_unassigned, assigned_row, assign_with, assign, no_rows_is_no_pump,
  assign_least_busy,
}

-- A default pump changes no ticket.
insert_default-tickets :
    (plant id now : ℕ) (db db' : Db) (u : Unit {0})
    → insert_default plant id now db ≡ ok (u, db')
    → db'.tickets ≡ db.tickets
unfolding insert_default insert_pump
insert_default-tickets plant id now db db' u e = ground arith

module _ (xs : List TicketRow) where
  pub same_tickets : (db db' : Db) → db'.tickets ≡ db.tickets → From xs db → From xs db'
  same_tickets db db' e h = record {
    history = subst (λ ts. Evolves xs ts) (sym e) h.history;
    ids = subst (Distinct same_id) (sym e) h.ids;
    references = subst (Distinct same_reference) (sym e) h.references;
    codes = subst (Distinct same_open_code) (sym e) h.codes;
  }

  Keeps-ensure_default : (plant id : ℕ) → Keeps (From xs) (ensure_default plant id)
  unfolding ensure_default
  Keeps-ensure_default plant id =
      Keeps-statement _
        (λ now db u db' h e. same_tickets db db' (insert_default-tickets plant id now db db' u e) h)

  assign_with-From :
      (plant ticket : ℕ) (c : Option PumpRow) (now : ℕ) (db : Db)
      → From xs db
      → From xs (assign_with plant ticket c now db).1
  unfolding assign_with
  assign_with-From plant ticket none now db h = h
  assign_with-From plant ticket (some c) now db h =
      elim (Bool-cases (exists_where (is_unassigned plant ticket) db.tickets)) [
        | inl hit ↦ rw hit (
            From-update_where (is_unassigned plant ticket) (assigned_row c.id now) db h
              (All-of (λ t _. stays (ground arith) refl) db.tickets))
        | inr miss ↦ rw miss h
      ]

  Keeps-no_rows_is_no_pump : (r : Result Pump) → Keeps (From xs) (no_rows_is_no_pump r)
  unfolding no_rows_is_no_pump
  Keeps-no_rows_is_no_pump (ok p) = Keeps-pure p
  Keeps-no_rows_is_no_pump (err Error.no_rows) = Keeps-raise _
  Keeps-no_rows_is_no_pump (err e) = Keeps-raise e

  pub Keeps-assign_least_busy :
      (plant ticket new_id : ℕ) → Keeps (From xs) (assign_least_busy plant ticket new_id)
  unfolding assign_least_busy assign
  Keeps-assign_least_busy plant ticket new_id =
      Keeps-bind _ _ (Keeps-ensure_default plant new_id) (λ _.
        Keeps-attempt_then _ _
          (Keeps-exec_returning _
            (λ now db h. assign_with-From plant ticket (candidate plant db) now db h))
          Keeps-no_rows_is_no_pump)

-- No row is ErrNoWorkingPump.
abbrev pub assigned_pump : Option Pump → Result Pump
assigned_pump none = err no_working_pump
assigned_pump (some p) = ok p

module _ (plant ticket new_id : ℕ) (in_tx : Bool) (scope : Option ℕ) (now : ℕ) (db : Db) where
  -- With a pump at the plant, AssignLeastBusy is its one statement.
  pub assign_least_busy_statement :
      exists_where (at_plant plant) db.pumps ≡ true
      → assign_least_busy plant ticket new_id (connected in_tx scope now db) ≡ (
        assigned_pump (assign plant ticket now db).0,
        connected in_tx scope now (assign plant ticket now db).1,
      )
  unfolding assign_least_busy
  assign_least_busy_statement has_pump = elim (Option-cases (assign plant ticket now db).0) [
    | inl absent ↦ rw (has_pump, absent) refl
    | inr (p, found) ↦ rw (has_pump, found) refl
  ]

  same_status :
      (pump : ℕ) (o : Option TicketRow)
      → Option.map
          (λ (t : TicketRow). t.status)
          (Option.map (λ t. if is_unassigned plant ticket t then assigned_row pump now t else t) o)
        ≡ Option.map (λ t. t.status) o
  same_status pump none = refl
  same_status pump (some t) = ap some (ground arith)

  status_of-assign_with :
      (id : ℕ) (c : Option PumpRow)
      → status_of plant id (assign_with plant ticket c now db).1 ≡ status_of plant id db
  unfolding assign_with status_of
  status_of-assign_with id none = refl
  status_of-assign_with id (some c) =
      elim (Bool-cases (exists_where (is_unassigned plant ticket) db.tickets)) [
        | inl hit ↦ rw hit (
            ap (Option.map (λ (t : TicketRow). t.status)) (
              find_where-update_where (is_unassigned plant ticket) (assigned_row c.id now)
                (is_ticket plant id) (λ x. refl) db.tickets)
            ∙ same_status c.id (find_where (is_ticket plant id) db.tickets))
        | inr miss ↦ rw miss refl
      ]

  pub status_of-assign :
      (id : ℕ) → status_of plant id (assign plant ticket now db).1 ≡ status_of plant id db
  unfolding assign
  status_of-assign id = status_of-assign_with id (candidate plant db)
