-- ===== src/Hours.antt =====
-- internal/hours/hours.go: TodayStatus, StatusNow, trimSeconds, timeInRange and formatRange. The
-- local clock is an argument, as the day of the week and the nanoseconds since midnight, in a
-- time zone whose days have 24 hours.
pub mod Clock
pub mod Open
use gatstogo.Base.{
  ℕ, zero, suc, ◌+◌, ◌-◌, ◌*◌, Bool, true, false, not, ◌&&◌, ◌||◌, Option, none, some, List, [],
  ◌∷◌, ◌++◌, map, Text, codes, coalesce, is_empty, is_digit, byte_len, take, leb, ltb, ◌==◌,
  if◌then◌else◌,
}
use gatstogo.Db.Schema.{Db, HourRow}
use gatstogo.Db.Table.{select_where, order_by}
use gatstogo.Db.Statement.{M, query}

pub record TodayStatus : Type 0 where
  pub is_open : Bool
  pub label : Text

-- The first five bytes, which in the text of a time are characters.
unfoldable trim_seconds : Text → Text
unfolding byte_len
trim_seconds s = if leb 5 (byte_len s) then take 5 s else s

-- strings.Split(s, ":"), for the fields that stand to the left of each colon and the last.
split_colon : Text → List Text
split_colon [] = [] ∷ []
split_colon (c ∷ s) = add_to c (split_colon s)
  where
    add_to : ℕ → List Text → List Text
    add_to c [] = [] ∷ []
    add_to c (field ∷ rest) = if c == b':' then [] ∷ field ∷ rest else (c ∷ field) ∷ rest

-- strconv.Atoi of the digits in the text of a time, and 0 where it fails.
all_digits : Text → Bool
all_digits [] = true
all_digits (c ∷ s) = is_digit c && all_digits s

value_of : ℕ → Text → ℕ
value_of n [] = n
value_of n (c ∷ s) = value_of (n * 10 + (c - b'0')) s

unfoldable atoi : Text → ℕ
unfolding all_digits value_of
atoi s = if all_digits s then value_of 0 s else 0

abbrev pub minute : ℕ
minute = 60 * 1000000000

abbrev pub day_length : ℕ
day_length = 24 * 60 * 60 * 1000000000

-- time.Date of the day at hour and minute.
clock : Text → Text → ℕ
unfolding atoi
clock hours minutes = (atoi hours * 60 + atoi minutes) * (60 * 1000000000)

unfoldable pub within : ℕ → ℕ → ℕ → Bool
within now start stop =
    let stop' : ℕ = if ltb start stop then stop else stop + 24 * 60 * 60 * 1000000000 in
    leb start now && ltb now stop'

fields_in_range : ℕ → List Text → List Text → Bool
unfolding within clock
fields_in_range now (oh ∷ om ∷ []) (ch ∷ cm ∷ []) = within now (clock oh om) (clock ch cm)
fields_in_range now _ _ = false

unfoldable time_in_range : ℕ → Text → Text → Bool
unfolding fields_in_range split_colon
time_in_range now opens closes = fields_in_range now (split_colon opens) (split_colon closes)

unfoldable format_range : Text → Text → Text
format_range opens closes = opens ++ codes "-" ++ closes

-- strings.Join(labels, ", ").
join_labels : List Text → Text
join_labels [] = []
join_labels (l ∷ []) = l
join_labels (l ∷ m ∷ ls) = l ++ codes ", " ++ join_labels (m ∷ ls)

-- A row that opens the plant for some of the day: not closed, with both times.
unfoldable pub is_segment : HourRow → Bool
unfolding trim_seconds
is_segment h =
    not h.closed
    && not (is_empty (trim_seconds (coalesce h.opens_at [])))
    && not (is_empty (trim_seconds (coalesce h.closes_at [])))

unfoldable pub segment_label : HourRow → Text
unfolding trim_seconds format_range
segment_label h =
    format_range (trim_seconds (coalesce h.opens_at [])) (trim_seconds (coalesce h.closes_at []))

unfoldable pub is_now_in : ℕ → HourRow → Bool
unfolding trim_seconds time_in_range
is_now_in now h =
    time_in_range now (trim_seconds (coalesce h.opens_at []))
      (trim_seconds (coalesce h.closes_at []))

-- After the loop, for a day that has rows.
closed_status : List Text → TodayStatus
unfolding join_labels
closed_status [] = record { is_open = false; label = codes "Closed today" }
closed_status (l ∷ ls) = record { is_open = false; label = codes "Today " ++ join_labels (l ∷ ls) }

open_status : List Text → TodayStatus
unfolding join_labels
open_status labels = record { is_open = true; label = codes "Open today " ++ join_labels labels }

-- The loop over the rows of the day, with the labels so far.
unfoldable pub scan_rows : ℕ → List Text → List HourRow → TodayStatus
unfolding is_segment is_now_in segment_label closed_status open_status
scan_rows now labels [] = closed_status labels
scan_rows now labels (h ∷ hs) =
    let skipped = scan_rows now labels hs in
    let next = scan_rows now (labels ++ segment_label h ∷ []) hs in
    if is_segment h
    then if is_now_in now h then open_status (labels ++ segment_label h ∷ []) else next
    else skipped

unfoldable pub status_of_rows : ℕ → List HourRow → TodayStatus
unfolding scan_rows
status_of_rows now [] = record { is_open = true; label = codes "Hours not set" }
status_of_rows now (h ∷ hs) = scan_rows now [] (h ∷ hs)

-- WHERE plant_id = $1 AND day_of_week = $2 ORDER BY segment.
unfoldable rows_today : ℕ → ℕ → Db → List HourRow
unfolding select_where order_by
rows_today plant day db =
    order_by (λ (x y : HourRow). leb x.segment y.segment)
      (select_where (λ (h : HourRow). h.plant_id == plant && h.day_of_week == day) db.plant_hours)

unfoldable pub status_now : ℕ → ℕ → ℕ → M TodayStatus
unfolding query rows_today status_of_rows
status_now plant day now = query (λ db. status_of_rows now (rows_today plant day db))
