-- ===== src/Shifts/Lifecycle/History.antt =====
-- internal/shifts/shifts.go: what the calls of the package may make of the shifts. A shift keeps whose
-- it is and what it was opened with, its counters do not go down, and a closed one stays as it is.
use gatstogo.Base.{
  ℕ, ◌≤◌, ◌≡◌, refl, sym, subst, ap, ◌∙◌, Bool, true, false, Bool-cases, inl, inr, List, [], ◌∷◌,
  All, arith, is_none, coalesce, if◌then◌else◌,
}
use gatstogo.Error.{ok}
use gatstogo.Db.Schema.{Db, ShiftRow}
use gatstogo.Db.Table.{exists_where, update_where}
use gatstogo.Db.Table.Distinct.{Distinct, Distinct-update_where}
use gatstogo.Shifts.Lifecycle.{same_open_shift, same_shift_id, insert_shift}

pub record SameShift (x y : ShiftRow) : Type 0 where
  pub id : y.id ≡ x.id
  pub plant_id : y.plant_id ≡ x.plant_id
  pub user_id : y.user_id ≡ x.user_id
  pub device_id : y.device_id ≡ x.device_id
  pub opened_at : y.opened_at ≡ x.opened_at
  pub opening : y.opening_cash_kobo ≡ x.opening_cash_kobo
  pub pump_id : y.pump_id ≡ x.pump_id
  pub issued : x.tokens_issued ≤ y.tokens_issued
  pub returned : coalesce x.tokens_returned 0 ≤ coalesce y.tokens_returned 0
  pub settled : is_none x.closed_at ≡ false → y ≡ x

pub data Grows : List ShiftRow → List ShiftRow → Type 0 where
  nothing : Grows [] []
  started : {y : ShiftRow} {xs ys : List ShiftRow} → Grows xs ys → Grows xs (y ∷ ys)
  kept :
      {x y : ShiftRow} {xs ys : List ShiftRow}
      → SameShift x y
      → Grows xs ys
      → Grows (x ∷ xs) (y ∷ ys)

-- The tables whose shifts have come from `xs`, and in which the primary key and
-- idx_shifts_one_open_per_user hold.
pub record From (xs : List ShiftRow) (db : Db) : Type 0 where
  pub history : Grows xs db.shifts
  pub ids : Distinct same_shift_id db.shifts
  pub open_shifts : Distinct same_open_shift db.shifts

SameShift-refl : (x : ShiftRow) → SameShift x x
SameShift-refl x = record {
  id = refl;
  plant_id = refl;
  user_id = refl;
  device_id = refl;
  opened_at = refl;
  opening = refl;
  pump_id = refl;
  issued = omega arith;
  returned = omega arith;
  settled = λ h. refl;
}

pub Grows-refl : (xs : List ShiftRow) → Grows xs xs
Grows-refl [] = nothing
Grows-refl (x ∷ xs) = kept (SameShift-refl x) (Grows-refl xs)

SameShift-trans : (x y z : ShiftRow) → SameShift x y → SameShift y z → SameShift x z
SameShift-trans x y z p q = record {
  id = q.id ∙ p.id;
  plant_id = q.plant_id ∙ p.plant_id;
  user_id = q.user_id ∙ p.user_id;
  device_id = q.device_id ∙ p.device_id;
  opened_at = q.opened_at ∙ p.opened_at;
  opening = q.opening ∙ p.opening;
  pump_id = q.pump_id ∙ p.pump_id;
  issued = omega (arith, p.issued, q.issued);
  returned = omega (arith, p.returned, q.returned);
  settled = λ h.
      let same : y ≡ x = p.settled h in
      q.settled (ap (λ (s : ShiftRow). is_none s.closed_at) same ∙ h) ∙ same;
}

-- Shifts that clash after an update did so before.
module _ (x x' y y' : ShiftRow) (p : SameShift x x') (q : SameShift y y') where
  ids_before : same_shift_id x' y' ≡ true → same_shift_id x y ≡ true
  ids_before h = rw (p.id, q.id) at h

  open_shifts_before : same_open_shift x' y' ≡ true → same_open_shift x y ≡ true
  open_shifts_before h =
      let open_x = open_before x x' p in
      let open_y = open_before y y' q in
      ground (arith, p.plant_id, p.user_id, q.plant_id, q.user_id, open_x, open_y)
    where
      open_before :
          (x y : ShiftRow) → SameShift x y → is_none y.closed_at ≡ true → is_none x.closed_at ≡ true
      open_before x y p h = elim (Bool-cases (is_none x.closed_at)) [
        | inl open_one ↦ open_one
        | inr closed_one ↦
            sym (ap (λ (s : ShiftRow). is_none s.closed_at) (p.settled closed_one)) ∙ h
      ]

-- An UPDATE that goes on with the shifts it finds.
module _ (p : ShiftRow → Bool) (f : ShiftRow → ShiftRow)
    (goes_on : (x : ShiftRow) → p x ≡ true → SameShift x (f x)) where
  update_one : (x : ShiftRow) → SameShift x (if p x then f x else x)
  update_one x = elim (Bool-cases (p x)) [
    | inl hit ↦ rw hit (goes_on x hit)
    | inr miss ↦ rw miss (SameShift-refl x)
  ]

  update-All : (xs : List ShiftRow) → All (λ x. SameShift x (if p x then f x else x)) xs
  update-All [] = tt
  update-All (x ∷ xs) = (update_one x, update-All xs)

  update-Grows : {xs ys : List ShiftRow} → Grows xs ys → Grows xs (update_where p f ys)
  unfolding update_where
  update-Grows nothing = nothing
  update-Grows (started g) = started (update-Grows g)
  update-Grows (kept {x} {y} same g) =
      kept (SameShift-trans x y (if p y then f y else y) same (update_one y)) (update-Grows g)

  pub From-update_where :
      {xs : List ShiftRow} (db : Db)
      → From xs db
      → From xs (record db { shifts = update_where p f db.shifts })
  From-update_where db h = record {
    history = update-Grows h.history;
    ids = Distinct-update_where same_shift_id p f ids_before db.shifts (update-All db.shifts) h.ids;
    open_shifts =
        Distinct-update_where same_open_shift p f open_shifts_before db.shifts
          (update-All db.shifts) h.open_shifts;
  }

insert_shift-eq-ok :
    (row : ShiftRow) (db db' : Db) (r : ℕ × ℕ)
    → insert_shift row db ≡ ok (r, db')
    → (exists_where (same_shift_id row) db.shifts ≡ false)
      × (exists_where (same_open_shift row) db.shifts ≡ false)
      × (db' ≡ record db { shifts = row ∷ db.shifts })
unfolding insert_shift
insert_shift-eq-ok row db db' r e = ground arith

pub From-insert :
    {xs : List ShiftRow} (row : ShiftRow) (db db' : Db) (r : ℕ × ℕ)
    → From xs db
    → insert_shift row db ≡ ok (r, db')
    → From xs db'
From-insert {xs} row db db' r h e =
    let (own, alone, same) = insert_shift-eq-ok row db db' r e in
    subst (From xs) (sym same) (record {
      history = started h.history;
      ids = (own, h.ids);
      open_shifts = (alone, h.open_shifts);
    })
