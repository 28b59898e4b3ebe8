-- ===== src/Examples/Pages.antt =====
-- Hosts and opening hours, with the theorems of internal/middleware/tenant.go and internal/hours.
use gatstogo.Base.{
  ◌*◌, ◌≡◌, refl, true, false, some, [], ◌∷◌, ◌++◌, Text, codes, text_eq, is_empty, leb, arith,
}
use gatstogo.Db.Schema.{HourRow}
use gatstogo.Host.{strip_host_port, extract_subdomain, is_reserved, tenant_slug}
use gatstogo.Host.Spoofing.{tenant_slug_sound}
use gatstogo.Hours.{within, minute, status_of_rows}
use gatstogo.Hours.Open.{
  Segment, IsTime, time, AllRead, no_rows, row, is_open_at, status_of_rows-is_open,
  overnight_before_midnight,
}

resolved :
    tenant_slug (codes "sunrise.gatstogo.com:8080") (codes "gatstogo.com") ≡ some (codes "sunrise")
unfolding tenant_slug text_eq
resolved = refl

tenant_slug_sound_example :
    (pre : Text) × (strip_host_port (codes "sunrise.gatstogo.com:8080")
      ≡ pre ++ b'.' ∷ codes "gatstogo.com")
    × (codes "sunrise" ≡ extract_subdomain (codes "sunrise.gatstogo.com:8080"))
    × (is_reserved (codes "sunrise") ≡ false)
    × (is_empty (codes "gatstogo.com") ≡ false)
tenant_slug_sound_example =
    tenant_slug_sound (codes "sunrise.gatstogo.com:8080") (codes "gatstogo.com") (codes "sunrise")
      resolved

abbrev morning : HourRow
morning = record {
  plant_id = 1;
  day_of_week = 1;
  segment = 1;
  opens_at = some (codes "08:00:00");
  closes_at = some (codes "12:30:00");
  closed = false;
}

open_at_ten : (status_of_rows (600 * minute) (morning ∷ [])).is_open ≡ true
unfolding status_of_rows
open_at_ten = refl

-- Closed, whatever its times say.
abbrev holiday : HourRow
holiday = record morning { segment = 2; closed = true }

abbrev eight_to_half_past_twelve : Segment
eight_to_half_past_twelve = record { closed = false; opens = some (8, 0); closes = some (12, 30) }

AllRead-rows :
    AllRead
      (holiday ∷ morning ∷ [])
      (record eight_to_half_past_twelve { closed = true } ∷ eight_to_half_past_twelve ∷ [])
AllRead-rows =
    row (record { closed = refl; opens = at_eight; closes = at_half_past })
      (row (record { closed = refl; opens = at_eight; closes = at_half_past }) no_rows)
  where
    at_eight : IsTime (some (codes "08:00:00")) (some (8, 0))
    at_eight = time (codes ":00") (omega arith) (omega arith) refl

    at_half_past : IsTime (some (codes "12:30:00")) (some (12, 30))
    at_half_past = time (codes ":00") (omega arith) (omega arith) refl

status_of_rows-is_open_example :
    (status_of_rows (600 * minute) (holiday ∷ morning ∷ [])).is_open
    ≡ is_open_at
        (600 * minute)
        (record eight_to_half_past_twelve { closed = true } ∷ eight_to_half_past_twelve ∷ [])
status_of_rows-is_open_example =
    status_of_rows-is_open (600 * minute) (holiday ∷ morning ∷ [])
      (record eight_to_half_past_twelve { closed = true } ∷ eight_to_half_past_twelve ∷ [])
      (omega arith) AllRead-rows

-- From eight in the evening to two at night, asked at one at night.
overnight_before_midnight_example :
    within (60 * minute) (1200 * minute) (120 * minute) ≡ leb (1200 * minute) (60 * minute)
overnight_before_midnight_example =
    overnight_before_midnight (60 * minute) (1200 * minute) (120 * minute) (omega arith)
      (omega arith)
