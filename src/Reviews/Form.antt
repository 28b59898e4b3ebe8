-- ===== src/Reviews/Form.antt =====
-- cmd/server/reviews.go: reviewPageHandler and reviewSubmitHandler. A request comes as the plant that
-- Tenant found, the token of its address and the form where it could be read, with the rating as
-- strconv.Atoi reads it.
use gatstogo.Base.{ℕ, ℤ, Bool, not, Option, none, some, Text, codes, coalesce, is_none, trim_space}
use gatstogo.Error.{Error, Result, ok, err}
use gatstogo.Db.Statement.{M, pure, ◌>>=◌, ◌>>◌, attempt_then}
use gatstogo.Tenant.{with_tenant, log}
use gatstogo.Reviews.{Target}
use gatstogo.Reviews.Submission.{get_target, submit}

-- PlantReviewData, as far as the review fills it in; a missing rating is 0.
pub record Page : Type 0 where
  pub ticket_reference : Text
  pub already_submitted : Bool
  pub rating : ℕ
  pub note : Text

pub data PageReply : Type 0 where
  not_found failed : PageReply
  page : Page → PageReply

abbrev page_of : Target → Page
page_of t = record {
  ticket_reference = t.ticket_reference;
  already_submitted = not (is_none t.submitted_at);
  rating = coalesce t.rating 0;
  note = t.note;
}

abbrev page_reply : Result Page → PageReply
page_reply (ok p) = PageReply.page p
page_reply (err Error.review_not_found) = PageReply.not_found
page_reply (err e) = PageReply.failed

unfoldable review_page : Option ℕ → Text → M PageReply
unfolding get_target with_tenant trim_space pure attempt_then ◌>>=◌
review_page none token = pure PageReply.not_found
review_page (some plant) token =
    attempt_then (with_tenant plant (get_target plant (trim_space token) >>= λ t. pure (page_of t)))
      (λ r. pure (page_reply r))

-- The page that is not found, or the redirect with its code.
pub data SubmitReply : Type 0 where
  not_found bad_form bad_rating failed already submitted : SubmitReply

abbrev pub submit_reply : Result (Unit {0}) → SubmitReply
submit_reply (ok u) = SubmitReply.submitted
submit_reply (err Error.already_submitted) = SubmitReply.already
submit_reply (err Error.invalid_rating) = SubmitReply.bad_rating
submit_reply (err Error.review_not_found) = SubmitReply.not_found
submit_reply (err e) = SubmitReply.failed

-- The function that WithTenant runs.
unfoldable pub submit_in_tenant : ℕ → Text → ℤ → Text → M (Unit {0})
unfolding submit log ◌>>=◌
submit_in_tenant plant token rating note = do
  submit plant token rating note
  log (some plant) none (codes "review.submitted") token

unfoldable pub review_submit : Option ℕ → Text → Option (Option ℤ × Text) → M SubmitReply
unfolding submit_in_tenant with_tenant trim_space pure attempt_then
review_submit none token form = pure SubmitReply.not_found
review_submit (some plant) token none = pure SubmitReply.bad_form
review_submit (some plant) token (some (none, note)) = pure SubmitReply.bad_rating
review_submit (some plant) token (some (some rating, note)) =
    attempt_then (with_tenant plant (submit_in_tenant plant (trim_space token) rating note))
      (λ r. pure (submit_reply r))
