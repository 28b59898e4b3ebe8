-- ===== src/Reviews/History.antt =====
-- internal/reviews/reviews.go: what its calls may make of plant_reviews. A request keeps its ticket
-- and its token, and a review that was submitted stays as it is.
pub mod Service
use gatstogo.Base.{
  All, ℕ, ◌≤◌, ◌≡◌, refl, sym, subst, ℤ, pos, negsuc, true, false, Option, none, some, List, [],
  ◌∷◌, Text, Bool-cases, inl, inr, arith, is_none, trim_space, if◌then◌else◌,
}
use gatstogo.Error.{Error, unique_violation, review_not_found, already_submitted, Result, ok, err}
use gatstogo.Db.Schema.{Db, ReviewRow}
use gatstogo.Db.Table.{update_where, exists_where}
use gatstogo.Db.Table.Distinct.{Distinct, Distinct-update_where}
use gatstogo.Db.Statement.{M, pure, ◌>>=◌, attempt_then}
use gatstogo.Db.Statement.Keeps.{
  Keeps, Keeps-pure, Keeps-raise, Keeps-query_row, Keeps-exec, Keeps-bind, Keeps-attempt_then,
  Keeps-if,
}
use gatstogo.Reviews.Requests as Requests
use gatstogo.Reviews.{
  Target, same_ticket, same_token, same_review_id, new_review, insert_review, ensure_request,
}
use gatstogo.Reviews.Submission.{
  target_missing, get_target, valid_rating, submitted_row, awaits, update_reviews, refuse_target,
  after_submit, submit_rated, submit,
}

pub record SameRequest (x y : ReviewRow) : Type 0 where
  pub id : y.id ≡ x.id
  pub plant_id : y.plant_id ≡ x.plant_id
  pub ticket_id : y.ticket_id ≡ x.ticket_id
  pub token : y.token ≡ x.token
  pub settled : is_none x.submitted_at ≡ false → y ≡ x

pub data Grows : List ReviewRow → List ReviewRow → Type 0 where
  nothing : Grows [] []
  asked : {y : ReviewRow} {xs ys : List ReviewRow} → Grows xs ys → Grows xs (y ∷ ys)
  kept :
      {x y : ReviewRow} {xs ys : List ReviewRow}
      → SameRequest x y
      → Grows xs ys
      → Grows (x ∷ xs) (y ∷ ys)

-- A rating is from 1 to 5, and there is one exactly when the review was submitted.
abbrev InRange : Option ℕ → Type 0
InRange none = Unit {0}
InRange (some n) = (1 ≤ n) × (n ≤ 5)

abbrev IsRated : ReviewRow → Type 0
IsRated r = InRange r.rating × (is_none r.rating ≡ is_none r.submitted_at)

-- The tables whose reviews have come from `xs`, and in which every unique index holds.
pub record From (xs : List ReviewRow) (db : Db) : Type 0 where
  pub history : Grows xs db.reviews
  pub tickets : Distinct same_ticket db.reviews
  pub tokens : Distinct same_token db.reviews
  pub ids : Distinct same_review_id db.reviews
  pub rated : All IsRated db.reviews

SameRequest-refl : (x : ReviewRow) → SameRequest x x
SameRequest-refl x = record {
  id = refl;
  plant_id = refl;
  ticket_id = refl;
  token = refl;
  settled = λ h. refl;
}

Grows-refl : (xs : List ReviewRow) → Grows xs xs
Grows-refl [] = nothing
Grows-refl (x ∷ xs) = kept (SameRequest-refl x) (Grows-refl xs)

SameRequest-trans : (x y z : ReviewRow) → SameRequest x y → SameRequest y z → SameRequest x z
SameRequest-trans x y z p q = record {
  id = ground arith;
  plant_id = ground arith;
  ticket_id = ground arith;
  token = ground arith;
  settled = λ h.
      let same : y ≡ x = p.settled h in
      subst (λ w. (is_none w.submitted_at ≡ false → z ≡ w) → z ≡ x) (sym same) (λ f. f h) q.settled;
}

-- Rows that clash after an update did so before.
module _ (x x' y y' : ReviewRow) (p : SameRequest x x') (q : SameRequest y y') where
  tickets_before : same_ticket x' y' ≡ true → same_ticket x y ≡ true
  tickets_before h = rw (p.plant_id, p.ticket_id, q.plant_id, q.ticket_id) at h

  tokens_before : same_token x' y' ≡ true → same_token x y ≡ true
  tokens_before h = rw (p.token, q.token) at h

  ids_before : same_review_id x' y' ≡ true → same_review_id x y ≡ true
  ids_before h = rw (p.id, q.id) at h

-- One row under the UPDATE of Submit.
module _ (plant : ℕ) (token note : Text) (rating now : ℕ) where
  abbrev submitted : ReviewRow → ReviewRow
  submitted r = if awaits plant token r then submitted_row rating note now r else r

  submitted-SameRequest : (r : ReviewRow) → SameRequest r (submitted r)
  submitted-SameRequest r = elim (Bool-cases (awaits plant token r)) [
    | inl hit ↦ rw hit (record {
      id = refl;
      plant_id = refl;
      ticket_id = refl;
      token = refl;
      settled = λ h. absurd (ground arith);
    })
    | inr miss ↦ rw miss (SameRequest-refl r)
  ]

  submitted-IsRated :
      (r : ReviewRow) → (1 ≤ rating) × (rating ≤ 5) → IsRated r → IsRated (submitted r)
  submitted-IsRated r range h = elim (Bool-cases (awaits plant token r)) [
    | inl hit ↦ rw hit (range, refl)
    | inr miss ↦ rw miss h
  ]

  submitted-All :
      (rs : List ReviewRow)
      → (1 ≤ rating) × (rating ≤ 5)
      → All IsRated rs
      → All IsRated (update_where (awaits plant token) (submitted_row rating note now) rs)
  unfolding update_where
  submitted-All [] range h = tt
  submitted-All (r ∷ rs) range h = (submitted-IsRated r range h.0, submitted-All rs range h.1)

  submitted-Grows :
      {xs ys : List ReviewRow}
      → Grows xs ys
      → Grows xs (update_where (awaits plant token) (submitted_row rating note now) ys)
  unfolding update_where
  submitted-Grows nothing = nothing
  submitted-Grows (asked g) = asked (submitted-Grows g)
  submitted-Grows (kept {x} {y} same g) =
      kept (SameRequest-trans x y (submitted y) same (submitted-SameRequest y)) (submitted-Grows g)

  rows-SameRequest : (rs : List ReviewRow) → All (λ r. SameRequest r (submitted r)) rs
  rows-SameRequest [] = tt
  rows-SameRequest (r ∷ rs) = (submitted-SameRequest r, rows-SameRequest rs)

  submitted-From :
      {xs : List ReviewRow} (db : Db)
      → (1 ≤ rating) × (rating ≤ 5)
      → From xs db
      → From xs (record db {
        reviews = update_where (awaits plant token) (submitted_row rating note now) db.reviews;
      })
  submitted-From db range h =
      let all = rows-SameRequest db.reviews in
      record {
        history = submitted-Grows h.history;
        tickets = Distinct-update_where same_ticket _ _ tickets_before db.reviews all h.tickets;
        tokens = Distinct-update_where same_token _ _ tokens_before db.reviews all h.tokens;
        ids = Distinct-update_where same_review_id _ _ ids_before db.reviews all h.ids;
        rated = submitted-All db.reviews range h.rated;
      }
