-- ===== src/Pumps/Assignment/LeastBusy.antt =====
-- internal/pumps/pumps.go: which pump AssignLeastBusy chooses, and that it chooses once.
use gatstogo.Base.{
  ℕ, ◌≤◌, ◌≡◌, refl, Bool, true, false, Bool-cases, Option-cases, inl, inr, Option, none, some,
  List, [], ◌∷◌, All, arith,
}
use gatstogo.Error.{no_working_pump, ok, err}
use gatstogo.Db.Schema.{Db, PumpRow, TicketRow}
use gatstogo.Db.Table.{update_where, select_where, find_where, exists_where}
use gatstogo.Db.Table.Distinct.{Distinct}
use gatstogo.Db.Table.First.{IsOrder, first_by-First}
use gatstogo.Db.Statement.{connected}
use gatstogo.Tickets.Purchase.{same_id}
use gatstogo.Tickets.Lifecycle.{is_ticket}
use gatstogo.Pumps.Board.{at_plant, busy_count, pump_of, listed_before}
use gatstogo.Pumps.Assignment.{
  less_busy, is_candidate, candidate, is_unassigned, is_assigned, assigned_row, pump_joined,
  assign_least_busy,
}

less_busy-IsOrder : (db : Db) → IsOrder (less_busy db)
unfolding less_busy listed_before
less_busy-IsOrder db = record {
  self = λ x. ground arith;
  trans = λ x y z a b. ground arith;
  total = λ x y a. ground arith;
}

less_busy-le :
    (db : Db) (x y : PumpRow) → less_busy db x y ≡ true → busy_count db x ≤ busy_count db y
unfolding less_busy
less_busy-le db x y h = ground arith

-- No working pump of the plant is less busy.
abbrev pub LeastBusy : ℕ → Db → PumpRow → Type 0
LeastBusy plant db c =
    (is_candidate plant c ≡ true)
    × All (λ (p : PumpRow). is_candidate plant p ≡ true → busy_count db c ≤ busy_count db p)
        db.pumps

selected :
    (plant : ℕ) (xs : List PumpRow)
    → All (λ x. is_candidate plant x ≡ true) (select_where (is_candidate plant) xs)
unfolding select_where
selected plant [] = tt
selected plant (x ∷ xs) = elim (Bool-cases (is_candidate plant x)) [
  | inl hit ↦ rw hit (hit, selected plant xs)
  | inr miss ↦ rw miss (selected plant xs)
]

unselect :
    (plant : ℕ) (db : Db) (c : PumpRow) (xs : List PumpRow)
    → All (λ y. less_busy db c y ≡ true) (select_where (is_candidate plant) xs)
    → All (λ (p : PumpRow). is_candidate plant p ≡ true → busy_count db c ≤ busy_count db p) xs
unfolding select_where
unselect plant db c [] h = tt
unselect plant db c (x ∷ xs) h = elim (Bool-cases (is_candidate plant x)) [
  | inl hit ↦
      let both = (rw hit at h) in ((λ _. less_busy-le db c x both.0), unselect plant db c xs both.1)
  | inr miss ↦
      let rest = (rw miss at h) in ((λ hit. absurd (ground arith)), unselect plant db c xs rest)
]

candidate-LeastBusy :
    (plant : ℕ) (db : Db) (c : PumpRow) → candidate plant db ≡ some c → LeastBusy plant db c
unfolding candidate
candidate-LeastBusy plant db c e =
    let rows = select_where (is_candidate plant) db.pumps in
    let first =
      first_by-First (less_busy db) (λ x. is_candidate plant x ≡ true) (less_busy-IsOrder db) rows
        (selected plant db.pumps) in
    let least = (rw e at first) in (least.0, unselect plant db c db.pumps least.1)

module _ (plant ticket new_id : ℕ) (in_tx : Bool) (scope : Option ℕ) (now : ℕ) (db : Db) where
  abbrev with_assigned : PumpRow → Db
  with_assigned c = record db {
    tickets = update_where (is_unassigned plant ticket) (assigned_row c.id now) db.tickets;
  }

  -- With a working pump at the plant and a ticket of the plant that has no pump, AssignLeastBusy gives
  -- the ticket a working pump of the plant than which none is less busy, and returns that pump; it
  -- changes no other ticket and nothing else.
  pub assign_least_busy_lem :
      (c : PumpRow)
      → exists_where (at_plant plant) db.pumps ≡ true
      → candidate plant db ≡ some c
      → exists_where (is_unassigned plant ticket) db.tickets ≡ true
      → (assign_least_busy plant ticket new_id (connected in_tx scope now db)
          ≡ (ok (pump_of db false c), connected in_tx scope now (with_assigned c)))
        × LeastBusy plant db c
  unfolding assign_least_busy
  assign_least_busy_lem c has_pump chosen free =
      (rw (has_pump, chosen, free) refl, candidate-LeastBusy plant db c chosen)

  -- With a pump at the plant but no working one, a ticket without a pump is refused one.
  no_candidate :
      exists_where (at_plant plant) db.pumps ≡ true
      → candidate plant db ≡ none
      → find_where (is_assigned plant ticket) db.tickets ≡ none
      → assign_least_busy plant ticket new_id (connected in_tx scope now db)
        ≡ (err no_working_pump, connected in_tx scope now db)
  unfolding assign_least_busy
  no_candidate has_pump idle unassigned = rw (has_pump, idle, unassigned) refl

  only_one :
      (x : TicketRow) (xs : List TicketRow)
      → x.id ≡ ticket
      → exists_where (same_id x) xs ≡ false
      → exists_where (is_unassigned plant ticket) xs ≡ false
  unfolding exists_where
  only_one x [] e h = refl
  only_one x (y ∷ ys) e h = ground (arith, only_one x ys)

  none_assigned :
      (y : TicketRow) (xs : List TicketRow) (x : TicketRow)
      → y.id ≡ ticket
      → exists_where (same_id y) xs ≡ false
      → find_where (is_assigned plant ticket) xs ≡ some x
      → ⊥
  unfolding exists_where find_where
  none_assigned y [] x e h f = absurd (ground arith)
  none_assigned y (z ∷ zs) x e h f = none_assigned y zs x e (ground arith) (ground arith)

  not_unassigned :
      (xs : List TicketRow) (x : TicketRow)
      → Distinct same_id xs
      → find_where (is_assigned plant ticket) xs ≡ some x
      → exists_where (is_unassigned plant ticket) xs ≡ false
  unfolding exists_where find_where
  not_unassigned [] x d e = cc
  not_unassigned (y ∷ ys) x d e = elim (Bool-cases (is_ticket plant ticket y)) [
    | inl hit ↦ elim (Option-cases y.pump_id) [
      | inl free ↦ absurd (none_assigned y ys x (ground arith) d.0 (ground arith))
      | inr (k, held) ↦ ground (arith, only_one y ys)
    ]
    | inr miss ↦ ground (arith, not_unassigned ys x)
  ]

  -- Where ticket identifiers are distinct, a ticket that has a pump keeps it: AssignLeastBusy returns
  -- the pump that the ticket has, with how busy it is now, and changes nothing.
  assign_least_busy_again :
      (x : TicketRow) (p : PumpRow)
      → exists_where (at_plant plant) db.pumps ≡ true
      → Distinct same_id db.tickets
      → find_where (is_assigned plant ticket) db.tickets ≡ some x
      → pump_joined db x ≡ some p
      → assign_least_busy plant ticket new_id (connected in_tx scope now db)
        ≡ (ok (pump_of db false p), connected in_tx scope now db)
  unfolding assign_least_busy
  assign_least_busy_again x p has_pump d assigned joined =
      elim (Option-cases (candidate plant db)) [
        | inl idle ↦ rw (has_pump, idle, assigned, joined) refl
        | inr (c, chosen) ↦
            rw (has_pump, chosen, not_unassigned db.tickets x d assigned, assigned, joined) refl
      ]
