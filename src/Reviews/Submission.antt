-- ===== src/Reviews/Submission.antt =====
-- internal/reviews/reviews.go: GetTarget and Submit.
use mathlib.Core.Option
use gatstogo.Base.{
  ℕ, ℤ, pos, negsuc, Bool, ◌&&◌, Option, none, some, [], Text, text_eq, coalesce, is_none, is_empty,
  null_if_empty, trim_space, leb, ◌==◌, if◌then◌else◌,
}
use gatstogo.Error.{Error, review_not_found, already_submitted, invalid_rating, Result, ok, err}
use gatstogo.Db.Schema.{Db, ReviewRow, TicketRow}
use gatstogo.Db.Table.{update_where, count_where, find_where}
use gatstogo.Db.Statement.{M, pure, raise, query_row, exec, ◌>>=◌, attempt_then}
use gatstogo.Reviews.{Target}

-- WHERE pr.plant_id = $1 AND pr.token = $2.
abbrev has_token : ℕ → Text → ReviewRow → Bool
has_token plant token r = r.plant_id == plant && text_eq r.token token

-- JOIN tickets t ON t.id = pr.ticket_id AND t.plant_id = pr.plant_id.
abbrev pub joined_ticket : Db → ReviewRow → Option TicketRow
joined_ticket db r =
    find_where (λ (t : TicketRow). t.id == r.ticket_id && t.plant_id == r.plant_id) db.tickets

abbrev target_of : ReviewRow → TicketRow → Target
target_of r t = record {
  token = r.token;
  ticket_id = r.ticket_id;
  ticket_reference = t.reference;
  rating = r.rating;
  note = coalesce r.note [];
  submitted_at = r.submitted_at;
}

target_joined : Db → Option ReviewRow → Option Target
unfolding find_where
target_joined db none = none
target_joined db (some r) = Option.map (target_of r) (joined_ticket db r)

unfoldable pub find_target : ℕ → Text → Db → Option Target
unfolding find_where target_joined
find_target plant token db = target_joined db (find_where (has_token plant token) db.reviews)

unfoldable pub target_missing : Result Target → M Target
unfolding pure raise
target_missing (ok t) = pure t
target_missing (err Error.no_rows) = raise review_not_found
target_missing (err e) = raise e

unfoldable pub get_target : ℕ → Text → M Target
unfolding trim_space query_row find_target target_missing attempt_then raise
get_target plant token =
    if is_empty (trim_space token)
    then raise review_not_found
    else attempt_then (query_row (find_target plant (trim_space token))) target_missing

-- rating < 1 || rating > 5.
unfoldable pub valid_rating : ℤ → Option ℕ
valid_rating (pos n) = if leb 1 n && leb n 5 then some n else none
valid_rating (negsuc n) = none

abbrev pub submitted_row : ℕ → Text → ℕ → ReviewRow → ReviewRow
submitted_row rating note now r = record r {
  rating = some rating;
  note = null_if_empty note;
  submitted_at = some now;
}

-- WHERE plant_id = $1 AND token = $2 AND submitted_at IS NULL.
abbrev pub awaits : ℕ → Text → ReviewRow → Bool
awaits plant token r = has_token plant token r && is_none r.submitted_at

unfoldable pub update_reviews : (ReviewRow → Bool) → (ℕ → ReviewRow → ReviewRow) → M ℕ
unfolding exec update_where count_where
update_reviews where_ set = exec λ now db. (
  count_where where_ db.reviews,
  record db { reviews = update_where where_ (set now) db.reviews },
)

unfoldable pub refuse_target : Target → M (Unit {0})
unfolding raise
refuse_target t = if is_none t.submitted_at then raise review_not_found else raise already_submitted

unfoldable pub after_submit : ℕ → Text → ℕ → M (Unit {0})
unfolding get_target refuse_target pure ◌>>=◌
after_submit plant token rows =
    if rows == 0 then get_target plant token >>= refuse_target else pure tt

unfoldable pub submit_rated : ℕ → Text → Text → Option ℕ → M (Unit {0})
unfolding update_reviews after_submit trim_space raise ◌>>=◌
submit_rated plant token note none = raise invalid_rating
submit_rated plant token note (some rating) = do
  rows ← update_reviews (awaits plant (trim_space token)) (submitted_row rating (trim_space note))
  after_submit plant token rows

unfoldable pub submit : ℕ → Text → ℤ → Text → M (Unit {0})
unfolding submit_rated valid_rating
submit plant token rating note = submit_rated plant token note (valid_rating rating)
