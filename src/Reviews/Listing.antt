-- ===== src/Reviews/Listing.antt =====
-- internal/reviews/reviews.go: List and Stats.
use gatstogo.Base.{
  ℕ, suc, ℤ, pos, Bool, not, ◌&&◌, Option, none, some, List, [], ◌∷◌, coalesce, is_none, take, ◌==◌,
}
use gatstogo.Db.Schema.{Db, ReviewRow, TicketRow}
use gatstogo.Db.Table.{count_where, select_where, find_where, sum_of, order_desc}
use gatstogo.Db.Statement.{M, query}
use gatstogo.Reviews.{Row, Summary}
use gatstogo.Reviews.Submission.{joined_ticket}

row_of : ReviewRow → TicketRow → Row
row_of r t = record {
  id = r.id;
  ticket_reference = t.reference;
  customer_phone = coalesce t.customer_phone [];
  rating = coalesce r.rating 0;
  note = coalesce r.note [];
  submitted_at = coalesce r.submitted_at 0;
}

with_ticket : Option TicketRow → ReviewRow → List Row → List Row
unfolding row_of
with_ticket none r rows = rows
with_ticket (some t) r rows = row_of r t ∷ rows

-- The join, review by review.
rows_joined : Db → List ReviewRow → List Row
unfolding with_ticket find_where
rows_joined db [] = []
rows_joined db (r ∷ rs) = with_ticket (joined_ticket db r) r (rows_joined db rs)

-- WHERE plant_id = $1 AND submitted_at IS NOT NULL.
abbrev is_submitted : ℕ → ReviewRow → Bool
is_submitted plant r = r.plant_id == plant && not (is_none r.submitted_at)

abbrev row_limit : ℤ → ℕ
row_limit (pos (suc n)) = suc n
row_limit _ = 25

unfoldable list_rows : ℕ → ℤ → Db → List Row
unfolding rows_joined select_where order_desc
list_rows plant limit db = take (row_limit limit) (
    rows_joined db
      (order_desc (λ r. coalesce r.submitted_at 0) (select_where (is_submitted plant) db.reviews)))

unfoldable list_reviews : ℕ → ℤ → M (List Row)
unfolding list_rows query
list_reviews plant limit = query (list_rows plant limit)

unfoldable stats : ℕ → M Summary
unfolding query count_where sum_of select_where
stats plant = query λ db. record {
  count = count_where (is_submitted plant) db.reviews;
  total = sum_of (λ r. coalesce r.rating 0) (select_where (is_submitted plant) db.reviews);
}
