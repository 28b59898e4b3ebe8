-- ===== src/Reviews/Requests.antt =====
-- internal/reviews/reviews.go: EnsureRequest keeps whatever its INSERT keeps.
use gatstogo.Base.{ℕ, zero, suc, ◌≡◌, Bool, false, Option, List, Text}
use gatstogo.Error.{Error, Result, ok, err}
use gatstogo.Db.Schema.{Db}
use gatstogo.Db.Statement.{M}
use gatstogo.Db.Statement.Keeps.{
  Keeps, Keeps-pure, Keeps-raise, Keeps-lift, Keeps-query_row, Keeps-insert_returning, Keeps-bind,
  Keeps-attempt_then,
}
use gatstogo.Reviews.{
  Request, new_review, insert_review, created_before, after_request, request_with, allocate_token,
  after_lookup, ensure_request,
}

module _ {κ} (P : Db → Type κ)
    (kept : (plant ticket : ℕ) (token : Text) (id : ℕ) (db : Db) (o : Option ℕ) (db' : Db)
      → P db
      → insert_review (new_review plant ticket token id) db ≡ ok (o, db')
      → P db') where
  Keeps-created_before : (plant ticket : ℕ) → Keeps P (created_before plant ticket)
  unfolding created_before
  Keeps-created_before plant ticket =
      Keeps-bind _ _ (Keeps-query_row _) (λ request. Keeps-pure (request, false))

  Keeps-after_request :
      (plant ticket : ℕ) (token : Text) (again : M (Request × Bool)) (r : Result ℕ)
      → Keeps P again
      → Keeps P (after_request plant ticket token again r)
  unfolding after_request
  Keeps-after_request plant ticket token again (ok id) k = Keeps-pure _
  Keeps-after_request plant ticket token again (err Error.no_rows) k =
      Keeps-created_before plant ticket
  Keeps-after_request plant ticket token again (err Error.unique_violation) k = k
  Keeps-after_request plant ticket token again (err e) k = Keeps-raise _

  Keeps-allocate_token :
      (left plant ticket : ℕ) (random : ℕ → Result (List ℕ)) (id : ℕ)
      → Keeps P (allocate_token left plant ticket random id)
  unfolding allocate_token request_with
  Keeps-allocate_token zero plant ticket random id = Keeps-raise _
  Keeps-allocate_token (suc left) plant ticket random id = Keeps-bind _ _ (Keeps-lift _) (λ token.
      Keeps-attempt_then _ _
        (Keeps-insert_returning _ (λ now db o db' h e. kept plant ticket token id db o db' h e))
        (λ r.
          Keeps-after_request plant ticket token _ r
            (Keeps-allocate_token left plant ticket (λ n. random (suc n)) id)))

  Keeps-after_lookup :
      (plant ticket : ℕ) (random : ℕ → Result (List ℕ)) (id : ℕ) (r : Result Request)
      → Keeps P (after_lookup plant ticket random id r)
  unfolding after_lookup
  Keeps-after_lookup plant ticket random id (ok request) = Keeps-pure _
  Keeps-after_lookup plant ticket random id (err Error.no_rows) =
      Keeps-allocate_token 5 plant ticket random id
  Keeps-after_lookup plant ticket random id (err e) = Keeps-raise _

  pub Keeps-ensure_request :
      (plant ticket : ℕ) (random : ℕ → Result (List ℕ)) (id : ℕ)
      → Keeps P (ensure_request plant ticket random id)
  unfolding ensure_request
  Keeps-ensure_request plant ticket random id =
      Keeps-attempt_then _ _ (Keeps-query_row _) (Keeps-after_lookup plant ticket random id)
