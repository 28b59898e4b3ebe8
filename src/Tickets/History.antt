-- ===== src/Tickets/History.antt =====
-- The life of a ticket as a specification: the edges of tickets.status that internal/tickets/tickets.go
-- intends, the columns that are a snapshot of the sale, and what a whole table may become.
pub mod Steps
pub mod Sales
pub mod Service
pub mod Terminal
use gatstogo.Base.{
  All, ℕ, ◌≡◌, refl, sym, subst, Bool, true, false, Option, List, [], ◌∷◌, Text, Bool-cases, inl,
  inr, arith, if◌then◌else◌,
}
use gatstogo.Db.Schema.{Db, TicketRow, Status, is_open}
use gatstogo.Db.Table.{update_where}
use gatstogo.Db.Table.Distinct.{Distinct, Distinct-update_where}
use gatstogo.Tickets.Purchase.{same_id, same_reference, same_open_code}

infix 40 ◌⟶◌ ◌⟶*◌
pub data ◌⟶◌ : Status → Status → Type 0 where
  pay : Status.pending ⟶ Status.paid
  start : Status.paid ⟶ Status.dispensing
  close : Status.dispensing ⟶ Status.filled
  fill_directly : Status.paid ⟶ Status.filled
  void_pending : Status.pending ⟶ Status.voided
  void_paid : Status.paid ⟶ Status.voided

pub data ◌⟶*◌ : Status → Status → Type 0 where
  here : {a : Status} → a ⟶* a
  next : {a b c : Status} → a ⟶* b → b ⟶ c → a ⟶* c

-- The status that a new ticket may have.
pub data Initial : Status → Type 0 where
  unpaid : Initial Status.pending
  prepaid : Initial Status.paid

-- What no operation may change once the ticket is sold.
pub record SameSale (x y : TicketRow) : Type 0 where
  pub id : y.id ≡ x.id
  pub plant_id : y.plant_id ≡ x.plant_id
  pub reference : y.reference ≡ x.reference
  pub code : y.code ≡ x.code
  pub size_grams : y.size_grams ≡ x.size_grams
  pub rate_per_kg : y.rate_per_kg ≡ x.rate_per_kg
  pub price_id : y.price_id ≡ x.price_id
  pub amount : y.amount ≡ x.amount
  pub channel : y.channel ≡ x.channel
  pub customer_phone : y.customer_phone ≡ x.customer_phone
  pub shift_id : y.shift_id ≡ x.shift_id
  pub created_at : y.created_at ≡ x.created_at

SameSale-refl : (x : TicketRow) → SameSale x x
SameSale-refl x = ground arith

SameSale-trans : (x y z : TicketRow) → SameSale x y → SameSale y z → SameSale x z
SameSale-trans x y z p q = ground arith

-- The second table has every row of the first, in order, moved along edges of the life cycle with
-- its sale unchanged, and new rows that began in an initial status.
pub data Evolves : List TicketRow → List TicketRow → Type 0 where
  nothing : Evolves [] []
  born :
      {y : TicketRow} {xs ys : List TicketRow} (initial : Status)
      → Initial initial
      → initial ⟶* y.status
      → Evolves xs ys
      → Evolves xs (y ∷ ys)
  moved :
      {x y : TicketRow} {xs ys : List TicketRow}
      → SameSale x y
      → x.status ⟶* y.status
      → Evolves xs ys
      → Evolves (x ∷ xs) (y ∷ ys)

pub Evolves-refl : (xs : List TicketRow) → Evolves xs xs
Evolves-refl [] = nothing
Evolves-refl (x ∷ xs) = moved (SameSale-refl x) here (Evolves-refl xs)

-- One row under an UPDATE: it is as it was, or has moved by one edge with its sale unchanged.
pub data Moves (x y : TicketRow) : Type 0 where
  stays : SameSale x y → y.status ≡ x.status → Moves x y
  steps : SameSale x y → x.status ⟶ y.status → Moves x y

⟶*-subst : {a b c : Status} → a ⟶* b → c ≡ b → a ⟶* c
⟶*-subst {a} r e = subst (λ s. a ⟶* s) (sym e) r

extend : {a : Status} (x y : TicketRow) → a ⟶* x.status → Moves x y → a ⟶* y.status
extend x y r (stays same e) = ⟶*-subst r e
extend x y r (steps same e) = next r e

sale_of : (x y : TicketRow) → Moves x y → SameSale x y
sale_of x y (stays same e) = same
sale_of x y (steps same e) = same

module _ (p : TicketRow → Bool) (f : TicketRow → TicketRow) where
  update_one : (x : TicketRow) → (p x ≡ true → Moves x (f x)) → Moves x (if p x then f x else x)
  update_one x move = elim (Bool-cases (p x)) [
    | inl hit ↦ rw hit (move hit)
    | inr miss ↦ rw miss (stays (SameSale-refl x) refl)
  ]

  update-All :
      (ys : List TicketRow)
      → All (λ y. p y ≡ true → Moves y (f y)) ys
      → All (λ y. Moves y (if p y then f y else y)) ys
  update-All [] h = tt
  update-All (y ∷ ys) h = (update_one y h.0, update-All ys h.1)

  Evolves-update_where :
      {xs ys : List TicketRow}
      → Evolves xs ys
      → All (λ y. Moves y (if p y then f y else y)) ys
      → Evolves xs (update_where p f ys)
  unfolding update_where
  Evolves-update_where nothing h = nothing
  Evolves-update_where (born {y} initial i r e) h =
      born initial i (extend y (if p y then f y else y) r h.0) (Evolves-update_where e h.1)
  Evolves-update_where (moved {x} {y} same r e) h =
      let y' = if p y then f y else y in
      moved (SameSale-trans x y y' same (sale_of y y' h.0)) (extend y y' r h.0)
        (Evolves-update_where e h.1)

-- A row that is in a partial unique index after a move was in it before.
open_before : (a b : Status) → a ⟶ b → is_open b ≡ true → is_open a ≡ true
open_before _ _ pay h = refl
open_before _ _ start h = refl
open_before _ _ close h = cc
open_before _ _ fill_directly h = refl
open_before _ _ void_pending h = refl
open_before _ _ void_paid h = refl

Moves-open : (x y : TicketRow) → Moves x y → is_open y.status ≡ true → is_open x.status ≡ true
Moves-open x y (stays same e) h = rw e at h
Moves-open x y (steps same e) h = open_before x.status y.status e h

module _ (x x' y y' : TicketRow) (mx : Moves x x') (my : Moves y y') where
  ids_before : same_id x' y' ≡ true → same_id x y ≡ true
  ids_before h = ground (arith, sale_of x x' mx, sale_of y y' my)

  references_before : same_reference x' y' ≡ true → same_reference x y ≡ true
  references_before h = ground (arith, sale_of x x' mx, sale_of y y' my)

  codes_before : same_open_code x' y' ≡ true → same_open_code x y ≡ true
  codes_before h =
      ground (arith, sale_of x x' mx, sale_of y y' my, Moves-open x x' mx, Moves-open y y' my)

-- The tables whose tickets have come from `xs`, and in which every unique index holds.
pub record From (xs : List TicketRow) (db : Db) : Type 0 where
  pub history : Evolves xs db.tickets
  pub ids : Distinct same_id db.tickets
  pub references : Distinct same_reference db.tickets
  pub codes : Distinct same_open_code db.tickets

-- An UPDATE of tickets whose rows move along the life cycle keeps all of it.
pub From-update_where :
    {xs : List TicketRow} (p : TicketRow → Bool) (f : TicketRow → TicketRow) (db : Db)
    → From xs db
    → All (λ y. p y ≡ true → Moves y (f y)) db.tickets
    → From xs (record db { tickets = update_where p f db.tickets })
From-update_where p f db h moves =
    let all = update-All p f db.tickets moves in
    record {
      history = Evolves-update_where p f h.history all;
      ids = Distinct-update_where same_id p f ids_before db.tickets all h.ids;
      references =
          Distinct-update_where same_reference p f references_before db.tickets all h.references;
      codes = Distinct-update_where same_open_code p f codes_before db.tickets all h.codes;
    }

pub All-of {ℓ} :
    {P : TicketRow → Type ℓ} → ((x : TicketRow) → P x) → (xs : List TicketRow) → All P xs
All-of h [] = tt
All-of h (x ∷ xs) = (h x, All-of h xs)
