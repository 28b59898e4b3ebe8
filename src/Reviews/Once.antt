-- ===== src/Reviews/Once.antt =====
-- internal/reviews/reviews.go: one request for a ticket, and one review for a request.
use gatstogo.Base.{
  ℕ, zero, suc, ◌≡◌, refl, sym, ap, ◌∙◌, Bool, true, false, Bool-cases, inl, inr, Option, none,
  some, List, [], Text, ℤ, arith, ◌∷◌, is_none, is_empty, trim_space, ◌==◌, if◌then◌else◌,
}
use gatstogo.Error.{Error, unique_violation, review_not_found, already_submitted, Result, ok, err}
use gatstogo.Db.Schema.{Db, ReviewRow}
use gatstogo.Db.Table.{update_where, count_where}
use gatstogo.Db.Table.Laws.{update_where_none, count_where-update_where}
use gatstogo.Db.Statement.{Store, M, connected}
use gatstogo.Reviews.History.Service.{
  insert_review-eq-some, insert_review-eq-none, insert_review-eq-err,
}
use gatstogo.Reviews.{
  Request, Target, existing_request, new_review, insert_review, new_token, request_with,
  allocate_token, ensure_request,
}
use gatstogo.Reviews.Submission.{
  find_target, valid_rating, awaits, submitted_row, submit_rated, after_submit, submit,
}

-- Why a second Submit is refused.
abbrev refusal : Option Target → Error
refusal none = review_not_found
refusal (some t) = if is_none t.submitted_at then review_not_found else already_submitted

abbrev pub refused : ℕ → Text → Db → Error
refused plant token db =
    if is_empty (trim_space token)
    then review_not_found
    else refusal (find_target plant (trim_space token) db)

module _ (plant : ℕ) (token : Text) (in_tx : Bool) (scope : Option ℕ) (now : ℕ) (db : Db) where
  abbrev waiting : ReviewRow → Bool
  waiting = awaits plant (trim_space token)

  refuse_found :
      (o : Option Target)
      → find_target plant (trim_space token) db ≡ o
      → is_empty (trim_space token) ≡ false
      → after_submit plant token 0 (connected in_tx scope now db)
        ≡ (err (refusal o), connected in_tx scope now db)
  unfolding after_submit
  refuse_found none e full = rw (full, e) refl
  refuse_found (some t) e full = elim (Bool-cases (is_none t.submitted_at)) [
    | inl open_still ↦ simp (full, e, open_still) refl
    | inr closed ↦ simp (full, e, closed) refl
  ]

  refuse :
      after_submit plant token 0 (connected in_tx scope now db)
      ≡ (err (refused plant token db), connected in_tx scope now db)
  unfolding after_submit
  refuse = elim (Bool-cases (is_empty (trim_space token))) [
    | inl blank ↦ rw blank refl
    | inr full ↦
        let same : refusal (find_target plant (trim_space token) db) ≡ refused plant token db =
          rw full refl in
        refuse_found (find_target plant (trim_space token) db) refl full
        ∙ ap (λ e. (err e, connected in_tx scope now db)) same
  ]

  db-after_submit :
      (rows : ℕ) → (after_submit plant token rows (connected in_tx scope now db)).1.db ≡ db
  unfolding after_submit
  db-after_submit rows = elim (Bool-cases (rows == 0)) [
    | inl zero_rows ↦ let none : rows ≡ 0 = ground arith in rw none (ap (λ r. r.1.db) refuse)
    | inr some_rows ↦ rw some_rows refl
  ]

module _ (plant : ℕ) (token : Text) (in_tx : Bool) (scope : Option ℕ) (now : ℕ) (db : Db) where
  submit_none :
      (rating : ℕ) (note : Text)
      → count_where (awaits plant (trim_space token)) db.reviews ≡ 0
      → submit_rated plant token note (some rating) (connected in_tx scope now db)
        ≡ (err (refused plant token db), connected in_tx scope now db)
  unfolding submit_rated
  submit_none rating note h =
      rw
        (
          h,
          update_where_none (awaits plant (trim_space token))
              (submitted_row rating (trim_space note) now) db.reviews h,
        )
        (refuse plant token in_tx scope now db)

  reviews-submit :
      (rating : ℕ) (note : Text)
      → (submit_rated plant token note (some rating) (connected in_tx scope now db)).1.db.reviews
        ≡ update_where
            (awaits plant (trim_space token))
            (submitted_row rating (trim_space note) now)
            db.reviews
  unfolding submit_rated
  reviews-submit rating note =
      ap (λ (d : Db). d.reviews) (db-after_submit plant token in_tx scope now _ _)

-- A second Submit for a token never succeeds, whatever came of the first, and it changes nothing; it
-- says that the review was submitted already if the review and its ticket are found and it was.
submit_twice :
    (plant : ℕ) (token : Text) (in_tx : Bool) (scope : Option ℕ) (now later : ℕ) (db : Db)
    (first second : ℕ) (r s : ℤ) (note note' : Text)
    → valid_rating r ≡ some first
    → valid_rating s ≡ some second
    → let db' = (submit plant token r note (connected in_tx scope now db)).1.db in
      submit plant token s note' (connected in_tx scope later db')
      ≡ (err (refused plant token db'), connected in_tx scope later db')
unfolding submit
submit_twice plant token in_tx scope now later db first second r s note note' e e' =
    rw (e, e')
      (submit_none plant token in_tx scope later _ second note' (
        rw (reviews-submit plant token in_tx scope now db first note) (
          count_where-update_where (awaits plant (trim_space token))
            (submitted_row first (trim_space note) now) (λ x. ground arith) db.reviews)))

-- The store between two attempts at a token; a refused INSERT has ended its transaction.
abbrev attempting : Bool → Bool → Option ℕ → ℕ → Db → Store
attempting in_tx aborted scope now db = record {
  db = db;
  in_tx = in_tx;
  aborted = aborted;
  faults = [];
  scope = scope;
  now = now;
}

module _ (plant ticket : ℕ) (in_tx : Bool) (scope : Option ℕ) (now : ℕ) (db : Db)
    (request : Request) (created : Bool) (t : Store) where
  inserted-Holds :
      (token : Text) (id : ℕ)
      → existing_request plant ticket
          (record db { reviews = new_review plant ticket token id ∷ db.reviews })
        ≡ some (record { id = id; token = token; ticket_id = ticket })
  unfolding existing_request
  inserted-Holds token id = ground arith

  request_with-Holds :
      (aborted : Bool) (again : M (Request × Bool)) (token : Text) (id : ℕ)
      (o : Result (Option ℕ × Db))
      → insert_review (new_review plant ticket token id) db ≡ o
      → existing_request plant ticket db ≡ none
      → (again (attempting in_tx in_tx scope now db) ≡ (ok (request, created), t)
          → existing_request plant ticket t.db ≡ some request)
      → request_with plant ticket id again token (attempting in_tx aborted scope now db)
        ≡ (ok (request, created), t)
      → existing_request plant ticket t.db ≡ some request
  unfolding request_with
  request_with-Holds true again token id o e missing ih h = cc
  request_with-Holds false again token id (ok (none, db')) e missing ih h =
      let same : db' ≡ db = insert_review-eq-none _ db db' e in
      let h' = rw (e, same, missing) at h in cc
  request_with-Holds false again token id (ok (some id', db')) e missing ih h =
      let (_, _, _, same, its) = insert_review-eq-some _ db db' id' e in
      let h' = rw (e, same, its) at h in
      let here : t
          ≡ attempting in_tx false scope now
              (record db { reviews = new_review plant ticket token id ∷ db.reviews }) =
        sym (ap (λ p. p.1) h') in
      let made : ◌≡◌ {A = Result (Request × Bool)}
          (ok (record { id = id; token = token; ticket_id = ticket }, true))
          (ok (request, created)) =
        ap (λ p. p.0) h' in
      rw here (cc (inserted-Holds token id))
  request_with-Holds false again token id (err x) e missing ih h =
      let clash : x ≡ unique_violation = insert_review-eq-err _ db x e in ih (rw (e, clash) at h)

  allocate_token-Holds :
      (left : ℕ) (aborted : Bool) (random : ℕ → Result (List ℕ)) (id : ℕ) (token : Result Text)
      → new_token (random 0) ≡ token
      → existing_request plant ticket db ≡ none
      → allocate_token left plant ticket random id (attempting in_tx aborted scope now db)
        ≡ (ok (request, created), t)
      → existing_request plant ticket t.db ≡ some request
  unfolding allocate_token
  allocate_token-Holds zero aborted random id token e missing h = cc
  allocate_token-Holds (suc left) aborted random id (err x) e missing h = let h' = rw e at h in cc
  allocate_token-Holds (suc left) aborted random id (ok token) e missing h =
      request_with-Holds aborted (allocate_token left plant ticket (λ n. random (suc n)) id) token
        id _ refl missing (allocate_token-Holds left in_tx (λ n. random (suc n)) id _ refl missing)
        (rw e at h)

  ensure_request-Holds :
      (random : ℕ → Result (List ℕ)) (id : ℕ) (o : Option Request)
      → existing_request plant ticket db ≡ o
      → ensure_request plant ticket random id (connected in_tx scope now db)
        ≡ (ok (request, created), t)
      → existing_request plant ticket t.db ≡ some request
  unfolding ensure_request
  ensure_request-Holds random id none e h =
      allocate_token-Holds 5 false random id _ refl e (rw e at h)
  ensure_request-Holds random id (some r) e h =
      let h' = rw e at h in
      let here : t ≡ connected in_tx scope now db = sym (ap (λ p. p.1) h') in rw here (cc)

-- An existing request is given again.
ensure_existing :
    (plant ticket : ℕ) (in_tx : Bool) (scope : Option ℕ) (now : ℕ) (db : Db)
    (random : ℕ → Result (List ℕ)) (id : ℕ) (request : Request)
    → existing_request plant ticket db ≡ some request
    → ensure_request plant ticket random id (connected in_tx scope now db)
      ≡ (ok (request, false), connected in_tx scope now db)
unfolding ensure_request
ensure_existing plant ticket in_tx scope now db random id request h = rw h refl

-- A request that EnsureRequest has returned is the one that a later call for the ticket returns, as
-- one that was there, and the later call changes nothing.
ensure_request_again :
    (plant ticket : ℕ) (in_tx : Bool) (scope : Option ℕ) (now later : ℕ) (db : Db)
    (random random' : ℕ → Result (List ℕ)) (id id' : ℕ) (request : Request) (created : Bool)
    (t : Store)
    → ensure_request plant ticket random id (connected in_tx scope now db)
      ≡ (ok (request, created), t)
    → ensure_request plant ticket random' id' (connected in_tx scope later t.db)
      ≡ (ok (request, false), connected in_tx scope later t.db)
ensure_request_again plant ticket in_tx scope now later db random random' id id' request created t
      h =
    ensure_existing plant ticket in_tx scope later t.db random' id' request
      (ensure_request-Holds plant ticket in_tx scope now db request created t random id _ refl h)
