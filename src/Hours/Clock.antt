-- ===== src/Hours/Clock.antt =====
-- internal/hours/hours.go: what trimSeconds and timeInRange make of the text of a time, HH:MM:SS.
use gatstogo.Base.{
  ℕ, suc, ◌+◌, ◌*◌, ◌/◌, ◌%◌, ◌<◌, ◌≤◌, ◌≡◌, refl, true, false, List, [], ◌∷◌, ◌++◌, Text, is_digit,
  byte_len, leb, le→leb, ◌==◌, arith,
}
use gatstogo.Hours.{
  trim_seconds, split_colon, atoi, clock, fields_in_range, time_in_range, within, minute,
}

abbrev pub two_digits : ℕ → Text
two_digits n = (b'0' + n / 10) ∷ (b'0' + n % 10) ∷ []

-- Of an hour and a minute.
abbrev pub hh_mm : ℕ → ℕ → Text
hh_mm h m = (b'0' + h / 10) ∷ (b'0' + h % 10) ∷ b':' ∷ (b'0' + m / 10) ∷ (b'0' + m % 10) ∷ []

digit_is_digit : (n : ℕ) → n < 10 → is_digit (b'0' + n) ≡ true
digit_is_digit n h = ground arith

digit_is_no_colon : (n : ℕ) → n < 10 → (b'0' + n == b':') ≡ false
digit_is_no_colon n h = ground arith

atoi_two : (n : ℕ) → n < 100 → atoi (two_digits n) ≡ n
unfolding atoi
atoi_two n h =
    rw (digit_is_digit (n / 10) (omega (arith, h)), digit_is_digit (n % 10) (omega (arith, h)))
      (omega (arith, h))

split_step :
    (c : ℕ) (s field : Text) (rest : List Text)
    → split_colon s ≡ field ∷ rest
    → (c == b':') ≡ false
    → split_colon (c ∷ s) ≡ (c ∷ field) ∷ rest
unfolding split_colon
split_step c s field rest e h = rw e (rw h refl)

split_at :
    (s field : Text) (rest : List Text)
    → split_colon s ≡ field ∷ rest
    → split_colon (b':' ∷ s) ≡ [] ∷ field ∷ rest
unfolding split_colon
split_at s field rest e = rw e refl

split_two :
    (n : ℕ) (s : Text) (rest : List Text)
    → n < 100
    → split_colon s ≡ [] ∷ rest
    → split_colon (two_digits n ++ s) ≡ two_digits n ∷ rest
split_two n s rest h e =
    split_step (b'0' + n / 10) ((b'0' + n % 10) ∷ s) ((b'0' + n % 10) ∷ []) rest
      (split_step (b'0' + n % 10) s [] rest e (digit_is_no_colon (n % 10) (omega arith)))
      (digit_is_no_colon (n / 10) (omega (arith, h)))

split_none : split_colon [] ≡ [] ∷ []
unfolding split_colon
split_none = refl

split_time :
    (h m : ℕ) → h < 100 → m < 100 → split_colon (hh_mm h m) ≡ two_digits h ∷ two_digits m ∷ []
split_time h m hh mm =
    split_two h (b':' ∷ two_digits m) (two_digits m ∷ []) hh
      (split_at (two_digits m) (two_digits m) [] (split_two m [] [] mm split_none))

byte_len-cons : (c : ℕ) (s : Text) → suc (byte_len s) ≤ byte_len (c ∷ s)
unfolding byte_len
byte_len-cons c s = ground arith

pub trim_time : (h m : ℕ) (rest : Text) → trim_seconds (hh_mm h m ++ rest) ≡ hh_mm h m
unfolding trim_seconds
trim_time h m rest =
    let e = byte_len-cons (b'0' + m % 10) rest in
    let d = byte_len-cons (b'0' + m / 10) ((b'0' + m % 10) ∷ rest) in
    let c = byte_len-cons b':' (two_digits m ++ rest) in
    let b = byte_len-cons (b'0' + h % 10) (b':' ∷ two_digits m ++ rest) in
    let a = byte_len-cons (b'0' + h / 10) ((b'0' + h % 10) ∷ b':' ∷ two_digits m ++ rest) in
    let long : leb 5 (byte_len (hh_mm h m ++ rest)) ≡ true =
      le→leb 5 (byte_len (hh_mm h m ++ rest)) (omega (arith, a, b, c, d, e)) in
    rw long refl

pub clock_time :
    (now h m h' m' : ℕ)
    → h < 100
    → m < 100
    → h' < 100
    → m' < 100
    → time_in_range now (hh_mm h m) (hh_mm h' m')
      ≡ within now ((h * 60 + m) * minute) ((h' * 60 + m') * minute)
unfolding time_in_range fields_in_range clock
clock_time now h m h' m' hh mm hh' mm' =
    rw
      (
        split_time h m hh mm,
        split_time h' m' hh' mm',
        atoi_two h hh,
        atoi_two m mm,
        atoi_two h' hh',
        atoi_two m' mm',
      )
      refl
