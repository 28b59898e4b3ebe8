-- ===== src/Hours/Open.antt =====
-- internal/hours/hours.go: when StatusNow says that a plant is open.
use gatstogo.Base.{
  ℕ, ◌+◌, ◌*◌, ◌≤◌, ◌<◌, ◌≡◌, refl, ◌∙◌, Bool, true, false, not, ◌&&◌, ◌||◌, Bool-cases, inl, inr,
  Option, none, some, List, [], ◌∷◌, ◌++◌, Text, coalesce, is_empty, arith, leb, ltb, if◌then◌else◌,
}
use gatstogo.Db.Schema.{HourRow}
use gatstogo.Db.Table.{exists_where}
use gatstogo.Hours.Clock.{hh_mm, trim_time, clock_time}
use gatstogo.Hours.{
  within, day_length, minute, trim_seconds, time_in_range, is_segment, segment_label, is_now_in,
  scan_rows, closed_status, open_status, status_of_rows,
}

-- What a row of plant_hours says: the hour and the minute of its times.
pub record Segment : Type 0 where
  pub closed : Bool
  pub opens : Option (ℕ × ℕ)
  pub closes : Option (ℕ × ℕ)

-- The text of a TIME, HH:MM and then the seconds.
pub data IsTime : Option Text → Option (ℕ × ℕ) → Type 0 where
  missing : IsTime none none
  time :
      {s : Text} {h m : ℕ} (seconds : Text)
      → h ≤ 24
      → m < 60
      → s ≡ hh_mm h m ++ seconds
      → IsTime (some s) (some (h, m))

pub record Reads (row : HourRow) (segment : Segment) : Type 0 where
  pub closed : row.closed ≡ segment.closed
  pub opens : IsTime row.opens_at segment.opens
  pub closes : IsTime row.closes_at segment.closes

pub data AllRead : List HourRow → List Segment → Type 0 where
  no_rows : AllRead [] []
  row :
      {h : HourRow} {g : Segment} {hs : List HourRow} {gs : List Segment}
      → Reads h g
      → AllRead hs gs
      → AllRead (h ∷ hs) (g ∷ gs)

abbrev nanoseconds : ℕ → ℕ → ℕ
nanoseconds h m = (h * 60 + m) * minute

-- From the start, up to the end where that is later, else to midnight.
abbrev from_to : ℕ → ℕ → ℕ → Bool
from_to now start stop = if ltb start stop then leb start now && ltb now stop else leb start now

covers : ℕ → Option (ℕ × ℕ) → Option (ℕ × ℕ) → Bool
covers now (some (h, m)) (some (h', m')) = from_to now (nanoseconds h m) (nanoseconds h' m')
covers now _ _ = false

-- Some segment of the day that is not closed covers the time.
some_covers : ℕ → List Segment → Bool
unfolding covers
some_covers now [] = false
some_covers now (g ∷ gs) = (not g.closed && covers now g.opens g.closes) || some_covers now gs

unfoldable pub is_open_at : ℕ → List Segment → Bool
unfolding some_covers
is_open_at now [] = true
is_open_at now (g ∷ gs) = some_covers now (g ∷ gs)

abbrev opens_now : ℕ → HourRow → Bool
opens_now now h = is_segment h && is_now_in now h

closed_status-is_open : (labels : List Text) → (closed_status labels).is_open ≡ false
unfolding closed_status
closed_status-is_open [] = refl
closed_status-is_open (l ∷ ls) = refl

scan_rows-is_open :
    (now : ℕ) (labels : List Text) (hs : List HourRow)
    → (scan_rows now labels hs).is_open ≡ exists_where (opens_now now) hs
unfolding scan_rows exists_where open_status
scan_rows-is_open now labels [] = closed_status-is_open labels
scan_rows-is_open now labels (h ∷ hs) = elim (Bool-cases (is_segment h)) [
  | inl yes_segment ↦ elim (Bool-cases (is_now_in now h)) [
    | inl inside ↦ rw (yes_segment, inside) refl
    | inr outside ↦
        rw (yes_segment, outside) (scan_rows-is_open now (labels ++ segment_label h ∷ []) hs)
  ]
  | inr not_segment ↦ rw not_segment (scan_rows-is_open now labels hs)
]

within_today :
    (now start stop : ℕ) → now < day_length → within now start stop ≡ from_to now start stop
unfolding within
within_today now start stop today = ground arith

-- The trimmed text, empty where there is no time.
abbrev trimmed : Option Text → Text
trimmed o = trim_seconds (coalesce o [])

in_range :
    (now : ℕ) (o c : Option Text) (g g' : Option (ℕ × ℕ))
    → now < day_length
    → IsTime o g
    → IsTime c g'
    → (not (is_empty (trimmed o))
        && not (is_empty (trimmed c))
        && time_in_range now (trimmed o) (trimmed c))
      ≡ covers now g g'
unfolding covers trim_seconds
in_range now o c g g' today missing closes = refl
in_range now o c g g' today (time {s} {h} {m} seconds hh mm e) missing = ground arith
in_range now o c g g' today (time {s} {h} {m} rest hh mm e)
      (time {s = s'} {h = h'} {m = m'} rest' hh' mm' e') =
    rw (e, e', trim_time h m rest, trim_time h' m' rest')
      (clock_time now h m h' m' (omega arith) (omega arith) (omega arith) (omega arith)
        ∙ within_today now (nanoseconds h m) (nanoseconds h' m') today)

Reads-opens_now :
    (now : ℕ) (h : HourRow) (g : Segment)
    → now < day_length
    → Reads h g
    → opens_now now h ≡ (not g.closed && covers now g.opens g.closes)
unfolding is_segment is_now_in
Reads-opens_now now h g today r =
    let same = in_range now h.opens_at h.closes_at g.opens g.closes today r.opens r.closes in
    ground (arith, r.closed)

rows_now :
    (now : ℕ) (hs : List HourRow) (gs : List Segment)
    → now < day_length
    → AllRead hs gs
    → exists_where (opens_now now) hs ≡ some_covers now gs
unfolding exists_where some_covers
rows_now now hs gs today no_rows = refl
rows_now now hs gs today (row {h} {g} {hs = hs'} {gs = gs'} r rest) =
    rw (Reads-opens_now now h g today r, rows_now now hs' gs' today rest) refl

-- Where each row of the day is read as its segment, at a time of the day: a plant with no hours for
-- the day is open; one with hours is open exactly when some segment that is not closed, with both
-- its times, has started and has not ended, where one that ends no later than it starts lasts to
-- midnight.
pub status_of_rows-is_open :
    (now : ℕ) (hs : List HourRow) (gs : List Segment)
    → now < day_length
    → AllRead hs gs
    → (status_of_rows now hs).is_open ≡ is_open_at now gs
unfolding status_of_rows is_open_at
status_of_rows-is_open now hs gs today no_rows = refl
status_of_rows-is_open now hs gs today (row {h} {g} {hs = hs'} {gs = gs'} r rest) =
    scan_rows-is_open now [] (h ∷ hs') ∙ rows_now now (h ∷ hs') (g ∷ gs') today (row r rest)

-- A segment that ends no later than it starts is open from its start to midnight, and closed all the
-- day before its start, the hours after midnight that it should reach into included.
pub overnight_before_midnight :
    (now start stop : ℕ) → now < day_length → stop ≤ start → within now start stop ≡ leb start now
unfolding within
overnight_before_midnight now start stop today wraps = ground arith
