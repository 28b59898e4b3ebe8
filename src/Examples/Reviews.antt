-- ===== src/Examples/Reviews.antt =====
-- Reviews, with the theorem of internal/reviews.
use gatstogo.Base.{ℕ, pos, none, some, List, [], ◌∷◌, codes}
use gatstogo.Error.{Result, ok}
use gatstogo.Db.Schema.{Db, ReviewRow}
use gatstogo.Db.Statement.Keeps.{Keeps}
use gatstogo.Reviews.History.{From}
use gatstogo.Reviews.History.Service.{Command, serve, Keeps-serve_reviews}
use gatstogo.Examples.{a_db}

abbrev a_review : ReviewRow
a_review = record {
  id = 30;
  plant_id = 1;
  ticket_id = 13;
  token = codes "AQID";
  rating = none;
  note = none;
  submitted_at = none;
}

abbrev reviewed_db : Db
reviewed_db = record a_db { reviews = a_review ∷ [] }

abbrev random : ℕ → Result (List ℕ)
random n = ok (n ∷ 2 ∷ 3 ∷ [])

abbrev calls : List Command
calls =
    Command.ensure 1 12 random 31
    ∷ Command.rate 1 (codes "AQID") (pos 5) (codes "good")
    ∷ Command.rate 1 (codes "AQID") (pos 1) (codes "bad")
    ∷ Command.fill_in (some 1) (codes " AQID") (some (some (pos 3), codes "late"))
    ∷ []

Keeps-serve_reviews_example : Keeps (From reviewed_db.reviews) (serve calls)
Keeps-serve_reviews_example = Keeps-serve_reviews reviewed_db.reviews calls
