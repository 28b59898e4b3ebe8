-- ===== src/Examples/Codec.antt =====
-- A form of session data that can be read back, and a form of identifiers.
use gatstogo.Base.{
  ℕ, zero, suc, ◌≡◌, refl, ap, ◌∙◌, Bool, true, false, Option, none, some, List, [], ◌∷◌, ◌++◌,
  Text, length, take, drop, ◌==◌,
}
use gatstogo.Error.{driver, Result, ok, err}
use gatstogo.Session.{Data, Codec}

take-append : (s rest : Text) → take (length s) (s ++ rest) ≡ s
take-append [] rest = refl
take-append (c ∷ s) rest = ap (λ t. c ∷ t) (take-append s rest)

drop-append : (s rest : Text) → drop (length s) (s ++ rest) ≡ rest
drop-append [] rest = refl
drop-append (c ∷ s) rest = drop-append s rest

-- Each text behind its length.
join : List Text → List ℕ → List ℕ
join [] rest = rest
join (t ∷ ts) rest = length t ∷ (t ++ join ts rest)

split : ℕ → List ℕ → List Text × List ℕ
split zero s = ([], s)
split (suc k) [] = ([], [])
split (suc k) (n ∷ s) = let (ts, rest) = split k (drop n s) in (take n s ∷ ts, rest)

split-join : (ts : List Text) (rest : List ℕ) → split (length ts) (join ts rest) ≡ (ts, rest)
unfolding split join
split-join [] rest = refl
split-join (t ∷ ts) rest =
    rw (take-append t (join ts rest), drop-append t (join ts rest), split-join ts rest) refl

bit : Bool → ℕ
bit true = 1
bit false = 0

read_bit : ℕ → Bool
read_bit n = n == 1

read_bit-bit : (b : Bool) → read_bit (bit b) ≡ b
unfolding read_bit bit
read_bit-bit true = refl
read_bit-bit false = refl

build : List Text × List ℕ → Result Data
unfolding read_bit
build
      (
        user ∷ role ∷ name ∷ plant ∷ shift ∷ pump ∷ phone ∷ [],
        price ∷ staff ∷ pumps ∷ created ∷ [],
      ) =
    ok (record {
      user_id = user;
      role = role;
      name = name;
      plant_id = plant;
      shift_id = shift;
      pump_id = pump;
      phone = phone;
      can_edit_price = read_bit price;
      can_manage_staff = read_bit staff;
      can_manage_pumps = read_bit pumps;
      created_at = created;
    })
build _ = err driver

abbrev texts : Data → List Text
texts d = d.user_id ∷ d.role ∷ d.name ∷ d.plant_id ∷ d.shift_id ∷ d.pump_id ∷ d.phone ∷ []

flags : Data → List ℕ
unfolding bit
flags d = bit d.can_edit_price ∷ bit d.can_manage_staff ∷ bit d.can_manage_pumps ∷ d.created_at ∷ []

pub encode : Data → Text
unfolding join flags
encode d = join (texts d) (flags d)

pub decode : Text → Result Data
unfolding build split
decode s = build (split 7 s)

pub decode-encode : (d : Data) → decode (encode d) ≡ ok d
unfolding decode encode build flags
decode-encode d =
    ap build (split-join (texts d) (flags d))
    ∙ rw
        (
          read_bit-bit d.can_edit_price,
          read_bit-bit d.can_manage_staff,
          read_bit-bit d.can_manage_pumps,
        )
        refl

unfoldable pub codec : Codec
unfolding encode decode
codec = record { encode = encode; decode = decode; decode-encode = decode-encode }

abbrev pub uuid_text : ℕ → Text
uuid_text n = n ∷ []

abbrev pub uuid_parse : Text → Option ℕ
uuid_parse (n ∷ []) = some n
uuid_parse _ = none

pub uuid_parse-uuid_text : (n : ℕ) → uuid_parse (uuid_text n) ≡ some n
uuid_parse-uuid_text n = refl
