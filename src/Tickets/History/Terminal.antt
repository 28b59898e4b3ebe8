-- ===== src/Tickets/History/Terminal.antt =====
-- internal/tickets/tickets.go: a ticket that has been filled or voided stays so.
use gatstogo.Base.{
  ℕ, ◌≡◌, refl, subst, Bool, false, Bool-cases, inl, inr, some, List, [], ◌∷◌, arith, ◌==◌,
}
use gatstogo.Db.Schema.{Db, TicketRow, Status}
use gatstogo.Db.Table.{find_where, exists_where}
use gatstogo.Db.Table.Distinct.{Distinct}
use gatstogo.Db.Statement.{Store}
use gatstogo.Tickets.Purchase.{same_id, same_reference, same_open_code}
use gatstogo.Tickets.History.{
  ◌⟶◌, pay, start, close, fill_directly, void_pending, void_paid, ◌⟶*◌, here, next, SameSale,
  Evolves, Evolves-refl, nothing, born, moved, From,
}
use gatstogo.Tickets.History.Service.{Command, serve, Keeps-serve}

pub data IsFinal : Status → Type 0 where
  filled_final : IsFinal Status.filled
  voided_final : IsFinal Status.voided

no_edge : {a b : Status} → IsFinal a → a ⟶ b → ⊥
no_edge filled_final e = leaves_filled e refl
  where
    leaves_filled : {a b : Status} → a ⟶ b → a ≡ Status.filled → ⊥
    leaves_filled pay h = cc
    leaves_filled start h = cc
    leaves_filled close h = cc
    leaves_filled fill_directly h = cc
    leaves_filled void_pending h = cc
    leaves_filled void_paid h = cc
no_edge voided_final e = leaves_voided e refl
  where
    leaves_voided : {a b : Status} → a ⟶ b → a ≡ Status.voided → ⊥
    leaves_voided pay h = cc
    leaves_voided start h = cc
    leaves_voided close h = cc
    leaves_voided fill_directly h = cc
    leaves_voided void_pending h = cc
    leaves_voided void_paid h = cc

⟶*-IsFinal : {a b : Status} → IsFinal a → a ⟶* b → b ≡ a
⟶*-IsFinal f here = refl
⟶*-IsFinal {a} f (next {b} r e) = absurd (no_edge (rw (⟶*-IsFinal f r) f) e)

abbrev pub has_id : ℕ → TicketRow → Bool
has_id k t = t.id == k

other_id :
    (k : ℕ) (x y : TicketRow) (ys : List TicketRow)
    → find_where (has_id k) ys ≡ some y
    → exists_where (same_id x) ys ≡ false
    → (x.id == k) ≡ false
unfolding find_where exists_where
other_id k x y [] e h = cc
other_id k x y (z ∷ ys) e h = ground (arith, other_id k x y ys)

-- The row that a row of the old table has become.
abbrev Became : ℕ → TicketRow → List TicketRow → Type 0
Became k x ys =
    (y : TicketRow) × (find_where (has_id k) ys ≡ some y) × SameSale x y × (x.status ⟶* y.status)

Evolves-Became :
    (k : ℕ) (x : TicketRow) {xs ys : List TicketRow}
    → Evolves xs ys
    → Distinct same_id ys
    → find_where (has_id k) xs ≡ some x
    → Became k x ys
unfolding find_where
Evolves-Became k x nothing d e = cc
Evolves-Became k x (born {y} {ys = ys} initial i r h) d e =
    let (y', found, same, path) = Evolves-Became k x h d.1 e in
    (y', ground (arith, other_id k y y' ys found d.0), same, path)
Evolves-Became k x (moved {x = x'} {y} {ys = ys} same r h) d e = elim (Bool-cases (x'.id == k)) [
  | inl hit ↦
      let it : x' ≡ x = ground arith in
      (
        y,
        ground arith,
        subst (λ z. SameSale z y) it same,
        subst (λ (z : TicketRow). z.status ⟶* y.status) it r,
      )
  | inr miss ↦
      let (y', found, same', path) = Evolves-Became k x h d.1 (rw miss at e) in
      (y', ground arith, same', path)
]

-- The tables with every unique index in force have come from themselves.
pub From-refl :
    (db : Db)
    → Distinct same_id db.tickets
    → Distinct same_reference db.tickets
    → Distinct same_open_code db.tickets
    → From db.tickets db
From-refl db a b c = record {
  history = Evolves-refl db.tickets;
  ids = a;
  references = b;
  codes = c;
}

-- From tables whose unique indexes hold, a ticket that is filled or voided is still there after any
-- requests, whichever statements fail, with the same status and the same sale.
pub serve-IsFinal :
    (commands : List Command) (s : Store) (k : ℕ) (x : TicketRow)
    → From s.db.tickets s.db
    → find_where (has_id k) s.db.tickets ≡ some x
    → IsFinal x.status
    → (y : TicketRow) × (find_where (has_id k) (serve commands s).1.db.tickets ≡ some y)
      × SameSale x y
      × (y.status ≡ x.status)
serve-IsFinal commands s k x h e f =
    let after = (Keeps-serve s.db.tickets commands).at s h in
    let (y, found, same, path) = Evolves-Became k x after.history after.ids e in
    (y, found, same, ⟶*-IsFinal f path)
