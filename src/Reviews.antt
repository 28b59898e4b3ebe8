-- ===== src/Reviews.antt =====
-- internal/reviews/reviews.go: EnsureRequest. The random bytes of each attempt at a token and the
-- identifier of the row are arguments. Submission has GetTarget and Submit, Listing List and Stats.
pub mod Submission
pub mod Listing
pub mod Form
pub mod History
pub mod Once
pub mod Requests
use mathlib.Core.Option
use gatstogo.Base.{
  ℕ, zero, suc, ℤ, pos, negsuc, Bool, true, false, not, ◌&&◌, ◌||◌, Option, none, some, List, [],
  ◌∷◌, Text, text_eq, codes, coalesce, is_none, is_empty, null_if_empty, trim_space, base64url, leb,
  take, ◌==◌, if◌then◌else◌,
}
use gatstogo.Error.{
  Error, unique_violation, review_not_found, already_submitted, invalid_rating, no_unique_token,
  Result, ok, err,
}
use gatstogo.Db.Schema.{Db, ReviewRow, TicketRow}
use gatstogo.Db.Table.{
  update_where, count_where, select_where, find_where, exists_where, sum_of, order_desc,
}
use gatstogo.Db.Statement.{
  M, pure, raise, lift, query, query_row, exec, insert_returning, ◌>>=◌, attempt_then,
}

pub record Request : Type 0 where
  pub id : ℕ
  pub token : Text
  pub ticket_id : ℕ

pub record Target : Type 0 where
  pub token : Text
  pub ticket_id : ℕ
  pub ticket_reference : Text
  pub rating : Option ℕ
  pub note : Text
  pub submitted_at : Option ℕ

pub record Row : Type 0 where
  pub id : ℕ
  pub ticket_reference : Text
  pub customer_phone : Text
  pub rating : ℕ
  pub note : Text
  pub submitted_at : ℕ

-- The average is of `total` over `count`.
pub record Summary : Type 0 where
  pub count : ℕ
  pub total : ℕ

-- UNIQUE (plant_id, ticket_id), UNIQUE (token), and the primary key.
abbrev pub same_ticket : ReviewRow → ReviewRow → Bool
same_ticket x y = x.plant_id == y.plant_id && x.ticket_id == y.ticket_id

abbrev pub same_token : ReviewRow → ReviewRow → Bool
same_token x y = text_eq x.token y.token

abbrev pub same_review_id : ReviewRow → ReviewRow → Bool
same_review_id x y = x.id == y.id

-- WHERE plant_id = $1 AND ticket_id = $2.
abbrev is_for : ℕ → ℕ → ReviewRow → Bool
is_for plant ticket r = r.plant_id == plant && r.ticket_id == ticket

unfoldable pub existing_request : ℕ → ℕ → Db → Option Request
unfolding find_where
existing_request plant ticket db =
    Option.map (λ (r : ReviewRow). record { id = r.id; token = r.token; ticket_id = ticket })
      (find_where (is_for plant ticket) db.reviews)

abbrev pub new_review : ℕ → ℕ → Text → ℕ → ReviewRow
new_review plant ticket token id = record {
  id = id;
  plant_id = plant;
  ticket_id = ticket;
  token = token;
  rating = none;
  note = none;
  submitted_at = none;
}

-- INSERT … ON CONFLICT (plant_id, ticket_id) DO NOTHING RETURNING id.
unfoldable pub insert_review : ReviewRow → Db → Result (Option ℕ × Db)
unfolding exists_where
insert_review row db =
    if exists_where (same_ticket row) db.reviews
    then ok (none, db)
    else if exists_where (same_token row) db.reviews || exists_where (same_review_id row) db.reviews
    then err unique_violation
    else ok (some row.id, record db { reviews = row ∷ db.reviews })

unfoldable pub new_token : Result (List ℕ) → Result Text
unfolding base64url
new_token (ok bytes) = ok (base64url bytes)
new_token (err e) = err e

unfoldable pub created_before : ℕ → ℕ → M (Request × Bool)
unfolding query_row existing_request pure ◌>>=◌
created_before plant ticket = do
  request ← query_row (existing_request plant ticket)
  pure (request, false)

-- The switch on the error of the INSERT.
unfoldable pub after_request : ℕ → ℕ → Text → M (Request × Bool) → Result ℕ → M (Request × Bool)
unfolding created_before pure raise
after_request plant ticket token again (ok id) =
    pure (record { id = id; token = token; ticket_id = ticket }, true)
after_request plant ticket token again (err Error.no_rows) = created_before plant ticket
after_request plant ticket token again (err Error.unique_violation) = again
after_request plant ticket token again (err e) = raise e

unfoldable pub request_with : ℕ → ℕ → ℕ → M (Request × Bool) → Text → M (Request × Bool)
unfolding insert_returning insert_review after_request attempt_then
request_with plant ticket id again token =
    attempt_then (insert_returning (λ now. insert_review (new_review plant ticket token id)))
      (after_request plant ticket token again)

-- The loop over the attempts that are left.
unfoldable pub allocate_token : ℕ → ℕ → ℕ → (ℕ → Result (List ℕ)) → ℕ → M (Request × Bool)
unfolding request_with new_token lift raise ◌>>=◌
allocate_token zero plant ticket random id = raise no_unique_token
allocate_token (suc left) plant ticket random id =
    let again = allocate_token left plant ticket (λ n. random (suc n)) id in
    lift (new_token (random 0)) >>= request_with plant ticket id again

unfoldable pub after_lookup :
    ℕ → ℕ → (ℕ → Result (List ℕ)) → ℕ → Result Request → M (Request × Bool)
unfolding allocate_token pure raise
after_lookup plant ticket random id (ok request) = pure (request, false)
after_lookup plant ticket random id (err Error.no_rows) = allocate_token 5 plant ticket random id
after_lookup plant ticket random id (err e) = raise e

-- The request of a ticket, and whether this call made it.
unfoldable pub ensure_request : ℕ → ℕ → (ℕ → Result (List ℕ)) → ℕ → M (Request × Bool)
unfolding query_row existing_request after_lookup attempt_then
ensure_request plant ticket random id =
    attempt_then (query_row (existing_request plant ticket)) (after_lookup plant ticket random id)
