-- ===== src/Tickets/Receipts/Privacy.antt =====
-- internal/tickets/tickets.go: who gets to see a receipt, and what a receipt list holds.
use gatstogo.Base.{
  ℕ, zero, suc, ◌≤◌, ◌≡◌, refl, sym, ◌∙◌, Bool, true, ◌&&◌, Bool-cases, Option-cases, inl, inr,
  Option, none, some, List, [], ◌∷◌, Text, text_eq_iff, All, take, length, length-take-le, arith,
  ◌==◌,
}
use gatstogo.Error.{receipt_not_found, ok, err}
use gatstogo.Db.Schema.{Db, TicketRow}
use gatstogo.Db.Table.{find_where, select_where}
use gatstogo.Db.Table.Laws.{find_where_sound, IsDescending, order_desc-IsDescending, order_desc-All}
use gatstogo.Db.Statement.{Store, connected}
use gatstogo.Tickets.Phone.{normalize_phone, phone_match}
use gatstogo.Tickets.Phone.Laws.{phone_match_iff}
use gatstogo.Tickets.Receipts.{Receipt, is_receipt, receipt_of, get_receipt, rows_by_phone}

-- The ticket was sold at the plant to a phone that reduces to what `typed` reduces to.
pub record SoldTo (plant : ℕ) (typed : Text) (x : TicketRow) : Type 0 where
  pub phone : Text
  pub plant_id : x.plant_id ≡ plant
  pub stored : x.customer_phone ≡ some phone
  pub same_phone : normalize_phone phone ≡ normalize_phone typed

match-SoldTo :
    (plant : ℕ) (typed : Text) (x : TicketRow)
    → (x.plant_id == plant && phone_match x.customer_phone (normalize_phone typed)) ≡ true
    → SoldTo plant typed x
unfolding phone_match
match-SoldTo plant typed x h = elim (Option-cases x.customer_phone) [
  | inl unknown ↦ ground arith
  | inr (phone, known) ↦ record {
    phone = phone;
    plant_id = ground arith;
    stored = known;
    same_phone = (phone_match_iff phone typed).0 (ground arith);
  }
]

module _ (plant : ℕ) (reference typed : Text) (in_tx : Bool) (scope : Option ℕ) (now : ℕ)
    (db : Db) where
  receipt_found :
      (x : TicketRow)
      → find_where (is_receipt plant reference (normalize_phone typed)) db.tickets ≡ some x
      → get_receipt plant reference (normalize_phone typed) (connected in_tx scope now db)
        ≡ (ok (receipt_of reference x), connected in_tx scope now db)
  unfolding get_receipt
  receipt_found x h = rw h refl

  receipt_missing :
      find_where (is_receipt plant reference (normalize_phone typed)) db.tickets ≡ none
      → get_receipt plant reference (normalize_phone typed) (connected in_tx scope now db)
        ≡ (err receipt_not_found, connected in_tx scope now db)
  unfolding get_receipt
  receipt_missing h = rw h refl

  -- A receipt that GetReceipt returns for a normalised phone is that of a stored ticket of the plant
  -- with the reference, and the ticket was sold to a phone that normalises to the same digits.
  pub get_receipt_private :
      (r : Receipt) (t : Store)
      → get_receipt plant reference (normalize_phone typed) (connected in_tx scope now db)
        ≡ (ok r, t)
      → (x : TicketRow) × (find_where
            (is_receipt plant reference (normalize_phone typed))
            db.tickets
          ≡ some x)
        × SoldTo plant typed x
        × (x.reference ≡ reference)
        × (r ≡ receipt_of reference x)
  get_receipt_private r t e =
      elim (Option-cases
        (find_where (is_receipt plant reference (normalize_phone typed)) db.tickets)) [
          | inl absent ↦ let refused = sym (receipt_missing absent) ∙ e in cc
          | inr (x, found) ↦
              let passes =
                find_where_sound (is_receipt plant reference (normalize_phone typed)) db.tickets x
                  found in
              let same = sym (receipt_found x found) ∙ e in
              (
                x,
                found,
                match-SoldTo plant typed x (ground arith),
                (text_eq_iff x.reference reference).0 (ground arith),
                ground arith,
              )
        ]

take-All {ℓ} : {A : Type ℓ} (P : A → Type 0) (n : ℕ) (xs : List A) → All P xs → All P (take n xs)
take-All P zero xs h = tt
take-All P (suc n) [] h = tt
take-All P (suc n) (x ∷ xs) h = (h.0, take-All P n xs h.1)

take-IsDescending {ℓ} :
    {A : Type ℓ} (key : A → ℕ) (n : ℕ) (xs : List A)
    → IsDescending key xs
    → IsDescending key (take n xs)
take-IsDescending key zero xs h = tt
take-IsDescending key (suc n) [] h = tt
take-IsDescending key (suc n) (x ∷ xs) h =
    (take-All (λ y. key y ≤ key x) n xs h.0, take-IsDescending key n xs h.1)

select_where-All {ℓ} :
    {A : Type ℓ} (P : A → Type 0) (p : A → Bool)
    → ((x : A) → p x ≡ true → P x)
    → (xs : List A) → All P (select_where p xs)
unfolding select_where
select_where-All P p h [] = tt
select_where-All P p h (x ∷ xs) = elim (Bool-cases (p x)) [
  | inl hit ↦ rw hit (h x hit, select_where-All P p h xs)
  | inr miss ↦ rw miss (select_where-All P p h xs)
]

-- The rows that ListByPhone lists for a normalised phone are at most fifty, newest first, and each is
-- a ticket of the plant sold to a phone that normalises to the same digits.
rows_by_phone_lem :
    (plant : ℕ) (typed : Text) (db : Db)
    → (length (rows_by_phone plant (normalize_phone typed) db) ≤ 50)
      × IsDescending
          (λ (t : TicketRow). t.created_at)
          (rows_by_phone plant (normalize_phone typed) db)
      × All (SoldTo plant typed) (rows_by_phone plant (normalize_phone typed) db)
unfolding rows_by_phone
rows_by_phone_lem plant typed db =
    let p : TicketRow → Bool =
      λ t. t.plant_id == plant && phone_match t.customer_phone (normalize_phone typed) in
    let newest : TicketRow → ℕ = λ t. t.created_at in
    (
      length-take-le 50 _,
      take-IsDescending newest 50 _ (order_desc-IsDescending newest (select_where p db.tickets)),
      take-All (SoldTo plant typed) 50 _ (
          order_desc-All newest (SoldTo plant typed) (select_where p db.tickets)
            (select_where-All (SoldTo plant typed) p (match-SoldTo plant typed) db.tickets)),
    )
