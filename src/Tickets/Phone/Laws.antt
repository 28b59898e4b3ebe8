-- ===== src/Tickets/Phone/Laws.antt =====
-- internal/tickets/tickets.go: the two reductions of a phone number agree, and what they keep.
use gatstogo.Base.{
  ltb, sym, ◌∙◌, inl, inr, Bool-cases, ℕ, ◌-◌, ◌≤◌, ◌≡◌, refl, true, [], ◌∷◌, ◌++◌, ap, some, ◌↔◌,
  arith, Text, text_eq_iff, is_digit, length, drop, All, length-drop, length-append, zero, suc,
}
use gatstogo.Tickets.Phone.{digits_of, normalize_phone, remove_non_digits, sql_phone, phone_match}

remove_non_digits-eq-digits_of : (s : Text) → remove_non_digits s ≡ digits_of s
unfolding remove_non_digits digits_of
remove_non_digits-eq-digits_of [] = refl
remove_non_digits-eq-digits_of (r ∷ s) = ground (arith, remove_non_digits-eq-digits_of s)

abbrev last10 : Text → Text
last10 s = drop (length s - 10) s

normalize_phone-last10 : (phone : Text) → normalize_phone phone ≡ last10 (digits_of phone)
unfolding normalize_phone
normalize_phone-last10 phone = elim (Bool-cases (ltb 10 (length (digits_of phone)))) [
  | inl long ↦ rw long
  | inr short ↦
      let e : 0 ≡ length (digits_of phone) - 10 = ground arith in
      rw short (ap (λ n. drop n (digits_of phone)) e)
]

sql_phone-eq-normalize_phone : (s : Text) → sql_phone s ≡ normalize_phone s
unfolding sql_phone
sql_phone-eq-normalize_phone s = rw (normalize_phone-last10, remove_non_digits-eq-digits_of)

-- A stored phone matches a normalised one in SQL exactly when the Go reduction of both is the same.
pub phone_match_iff :
    (stored phone : Text)
    → (phone_match (some stored) (normalize_phone phone) ≡ true)
      ↔ (normalize_phone stored ≡ normalize_phone phone)
unfolding phone_match
phone_match_iff stored phone =
    rw (← sql_phone-eq-normalize_phone stored)
      (text_eq_iff (sql_phone stored) (normalize_phone phone))

abbrev IsDigits : Text → Type 0
IsDigits = All (λ c. is_digit c ≡ true)

digits_of-IsDigits : (s : Text) → IsDigits (digits_of s)
unfolding digits_of
digits_of-IsDigits [] = tt
digits_of-IsDigits (r ∷ s) = ground (arith, digits_of-IsDigits s)

drop-IsDigits : (n : ℕ) (s : Text) → IsDigits s → IsDigits (drop n s)
drop-IsDigits zero s h = h
drop-IsDigits (suc n) [] h = h
drop-IsDigits (suc n) (c ∷ s) h = drop-IsDigits n s h.1

digits_of_idem : (s : Text) → IsDigits s → digits_of s ≡ s
unfolding digits_of
digits_of_idem [] h = refl
digits_of_idem (r ∷ s) h = ground (arith, digits_of_idem s h.1)

digits_of-append : (s t : Text) → digits_of (s ++ t) ≡ digits_of s ++ digits_of t
unfolding digits_of
digits_of-append [] t = refl
digits_of-append (r ∷ s) t = ground (arith, digits_of-append s t)

drop-append : (s t : Text) (n : ℕ) → length s ≤ n → drop n (s ++ t) ≡ drop (n - length s) t
drop-append [] t n h = ap (λ k. drop k t) (omega arith)
drop-append (c ∷ s) t zero h = absurd (omega arith)
drop-append (c ∷ s) t (suc n) h = drop-append s t n (omega arith) ∙ ap (λ k. drop k t) (omega arith)

last10_idem : (s : Text) → length s ≤ 10 → last10 s ≡ s
last10_idem s h = let e : length s - 10 ≡ 0 = omega arith in ap (λ k. drop k s) e

-- A normalised number is at most ten digits, and normalising it again changes nothing.
normalize_phone_canonical :
    (phone : Text)
    → (length (normalize_phone phone) ≤ 10)
      × IsDigits (normalize_phone phone)
      × (normalize_phone (normalize_phone phone) ≡ normalize_phone phone)
normalize_phone_canonical phone =
    let digits = digits_of phone in
    let e = normalize_phone-last10 phone in
    let short : length (last10 digits) ≤ 10 =
      omega (arith, length-drop (length digits - 10) digits) in
    let all : IsDigits (last10 digits) =
      drop-IsDigits (length digits - 10) digits (digits_of-IsDigits phone) in
    (
      rw e short,
      rw e all,
      rw (e, normalize_phone-last10, digits_of_idem (last10 digits) all)
          (last10_idem (last10 digits) short),
    )

-- Whatever stands before ten digits or more (a country code, a trunk zero, spaces) is ignored.
normalize_phone-append :
    (pre phone : Text)
    → 10 ≤ length (digits_of phone)
    → normalize_phone (pre ++ phone) ≡ normalize_phone phone
normalize_phone-append pre phone h =
    let s = digits_of pre in
    let t = digits_of phone in
    let n : ℕ = length (s ++ t) - 10 in
    normalize_phone-last10 (pre ++ phone)
    ∙ ap last10 (digits_of-append pre phone)
    ∙ drop-append s t n (omega (arith, length-append s t))
    ∙ ap (λ k. drop k t) (omega (arith, length-append s t))
    ∙ sym (normalize_phone-last10 phone)
