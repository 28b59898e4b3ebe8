-- ===== src/Reviews/History/Service.antt =====
-- internal/reviews/reviews.go and cmd/server/reviews.go: any calls of EnsureRequest and Submit and any
-- review forms.
use gatstogo.Base.{
  ℕ, ◌≤◌, ◌≡◌, refl, sym, subst, ℤ, pos, negsuc, false, Option, none, some, List, [], ◌∷◌, Text,
  arith, trim_space,
}
use gatstogo.Error.{Error, unique_violation, review_not_found, already_submitted, Result, ok, err}
use gatstogo.Db.Schema.{Db, ReviewRow, AuditRow}
use gatstogo.Db.Table.{exists_where}
use gatstogo.Db.Statement.{M, pure, ◌>>=◌, attempt_then}
use gatstogo.Db.Statement.Keeps.{
  Keeps, Keeps-pure, Keeps-raise, Keeps-query_row, Keeps-exec, Keeps-bind, Keeps-attempt_then,
  Keeps-if,
}
use gatstogo.Tenant.Invariants.{Keeps-with_tenant, Keeps-log}
use gatstogo.Reviews.Requests as Requests
use gatstogo.Reviews.{
  Target, same_ticket, same_token, same_review_id, new_review, insert_review, ensure_request,
}
use gatstogo.Reviews.Submission.{
  target_missing, get_target, valid_rating, update_reviews, refuse_target, after_submit,
  submit_rated, submit,
}
use gatstogo.Reviews.Form.{submit_reply, submit_in_tenant, review_submit}
use gatstogo.Reviews.History.{asked, From, submitted-From}

pub insert_review-eq-some :
    (row : ReviewRow) (db db' : Db) (id : ℕ)
    → insert_review row db ≡ ok (some id, db')
    → (exists_where (same_ticket row) db.reviews ≡ false)
      × (exists_where (same_token row) db.reviews ≡ false)
      × (exists_where (same_review_id row) db.reviews ≡ false)
      × (db' ≡ record db { reviews = row ∷ db.reviews })
      × (id ≡ row.id)
unfolding insert_review
insert_review-eq-some row db db' id e = ground arith

pub insert_review-eq-none :
    (row : ReviewRow) (db db' : Db) → insert_review row db ≡ ok (none, db') → db' ≡ db
unfolding insert_review
insert_review-eq-none row db db' e = ground arith

pub insert_review-eq-err :
    (row : ReviewRow) (db : Db) (e : Error) → insert_review row db ≡ err e → e ≡ unique_violation
unfolding insert_review
insert_review-eq-err row db e h = ground arith

module _ (xs : List ReviewRow) where
  insert_review-From :
      (plant ticket : ℕ) (token : Text) (id : ℕ) (db : Db) (o : Option ℕ) (db' : Db)
      → From xs db
      → insert_review (new_review plant ticket token id) db ≡ ok (o, db')
      → From xs db'
  insert_review-From plant ticket token id db none db' h e =
      subst (From xs) (sym (insert_review-eq-none _ db db' e)) h
  insert_review-From plant ticket token id db (some id') db' h e =
      let (a, b, c, same, _) = insert_review-eq-some _ db db' id' e in
      subst (From xs) (sym same) (record {
        history = asked h.history;
        tickets = (a, h.tickets);
        tokens = (b, h.tokens);
        ids = (c, h.ids);
        rated = ((tt, refl), h.rated);
      })

  pub Keeps-ensure_request :
      (plant ticket : ℕ) (random : ℕ → Result (List ℕ)) (id : ℕ)
      → Keeps (From xs) (ensure_request plant ticket random id)
  Keeps-ensure_request = Requests.Keeps-ensure_request (From xs) insert_review-From

  Keeps-target_missing : (r : Result Target) → Keeps (From xs) (target_missing r)
  unfolding target_missing
  Keeps-target_missing (ok t) = Keeps-pure t
  Keeps-target_missing (err Error.no_rows) = Keeps-raise _
  Keeps-target_missing (err e) = Keeps-raise _

  Keeps-get_target : (plant : ℕ) (token : Text) → Keeps (From xs) (get_target plant token)
  unfolding get_target
  Keeps-get_target plant token =
      Keeps-if _ _ _ (Keeps-raise review_not_found)
        (Keeps-attempt_then _ _ (Keeps-query_row _) Keeps-target_missing)

  Keeps-refuse_target : (t : Target) → Keeps (From xs) (refuse_target t)
  unfolding refuse_target
  Keeps-refuse_target t =
      Keeps-if _ _ _ (Keeps-raise review_not_found) (Keeps-raise already_submitted)

  Keeps-after_submit :
      (plant : ℕ) (token : Text) (rows : ℕ) → Keeps (From xs) (after_submit plant token rows)
  unfolding after_submit
  Keeps-after_submit plant token rows =
      Keeps-if _ _ _ (Keeps-bind _ _ (Keeps-get_target plant token) Keeps-refuse_target)
        (Keeps-pure tt)

  valid_rating-range : (rating : ℤ) (n : ℕ) → valid_rating rating ≡ some n → (1 ≤ n) × (n ≤ 5)
  unfolding valid_rating
  valid_rating-range (pos m) n e = ground arith
  valid_rating-range (negsuc m) n e = absurd (ground arith)

  Keeps-submit_rated :
      (plant : ℕ) (token note : Text) (rating : ℤ) (o : Option ℕ)
      → valid_rating rating ≡ o
      → Keeps (From xs) (submit_rated plant token note o)
  unfolding submit_rated update_reviews
  Keeps-submit_rated plant token note rating none e = Keeps-raise _
  Keeps-submit_rated plant token note rating (some n) e =
      Keeps-bind _ _
        (Keeps-exec _ (λ now db h.
          submitted-From plant (trim_space token) (trim_space note) n now db
            (valid_rating-range rating n e) h))
        (Keeps-after_submit plant token)

  Keeps-submit :
      (plant : ℕ) (token : Text) (rating : ℤ) (note : Text)
      → Keeps (From xs) (submit plant token rating note)
  unfolding submit
  Keeps-submit plant token rating note = Keeps-submit_rated plant token note rating _ refl

  From-log :
      (db : Db) (rows : List AuditRow) → From xs db → From xs (record db { activity_log = rows })
  From-log db rows h = record {
    history = h.history;
    tickets = h.tickets;
    tokens = h.tokens;
    ids = h.ids;
    rated = h.rated;
  }

  Keeps-submit_in_tenant :
      (plant : ℕ) (token note : Text) (rating : ℤ)
      → Keeps (From xs) (submit_in_tenant plant token rating note)
  unfolding submit_in_tenant
  Keeps-submit_in_tenant plant token note rating =
      Keeps-bind _ _ (Keeps-submit plant token rating note)
        (λ _. Keeps-log (From xs) From-log (some plant) none _ token)

  Keeps-review_submit :
      (plant : Option ℕ) (token : Text) (form : Option (Option ℤ × Text))
      → Keeps (From xs) (review_submit plant token form)
  unfolding review_submit
  Keeps-review_submit none token form = Keeps-pure _
  Keeps-review_submit (some plant) token none = Keeps-pure _
  Keeps-review_submit (some plant) token (some (none, note)) = Keeps-pure _
  Keeps-review_submit (some plant) token (some (some rating, note)) =
      Keeps-attempt_then _ _
        (Keeps-with_tenant (From xs) plant _
          (Keeps-submit_in_tenant plant (trim_space token) note rating))
        (λ r. Keeps-pure (submit_reply r))

-- The calls of the package that write, and a submission of the review form.
pub data Command : Type 0 where
  ensure : ℕ → ℕ → (ℕ → Result (List ℕ)) → ℕ → Command
  rate : ℕ → Text → ℤ → Text → Command
  fill_in : Option ℕ → Text → Option (Option ℤ × Text) → Command

forget {ℓ} : {A : Type ℓ} → M A → M (Unit {0})
forget m = attempt_then m (λ _. pure tt)

execute : Command → M (Unit {0})
execute (ensure plant ticket random id) = forget (ensure_request plant ticket random id)
execute (rate plant token rating note) = forget (submit plant token rating note)
execute (fill_in plant token form) = forget (review_submit plant token form)

pub serve : List Command → M (Unit {0})
serve [] = pure tt
serve (c ∷ rest) = execute c >>= λ _. serve rest

module _ (xs : List ReviewRow) where
  Keeps-execute : (c : Command) → Keeps (From xs) (execute c)
  unfolding execute forget
  Keeps-execute (ensure plant ticket random id) =
      Keeps-attempt_then _ _ (Keeps-ensure_request xs plant ticket random id) (λ _. Keeps-pure tt)
  Keeps-execute (rate plant token rating note) =
      Keeps-attempt_then _ _ (Keeps-submit xs plant token rating note) (λ _. Keeps-pure tt)
  Keeps-execute (fill_in plant token form) =
      Keeps-attempt_then _ _ (Keeps-review_submit xs plant token form) (λ _. Keeps-pure tt)

  -- After any calls of EnsureRequest and Submit and any review forms, whichever statements fail:
  -- every request is still there with its ticket and its token, a review that was submitted is as
  -- it was, a ticket of a plant has at most one review and a token at most one request, and every
  -- rating is from 1 to 5.
  pub Keeps-serve_reviews : (commands : List Command) → Keeps (From xs) (serve commands)
  unfolding serve
  Keeps-serve_reviews [] = Keeps-pure tt
  Keeps-serve_reviews (c ∷ rest) = Keeps-bind _ _ (Keeps-execute c) (λ _. Keeps-serve_reviews rest)
