-- ===== src/Examples/Codes.antt =====
-- PINs and one-time codes, with the theorems of internal/shifts, internal/receipts and internal/staff.
use gatstogo.Base.{
  ℕ, ◌<◌, ◌≡◌, refl, true, false, none, some, List, [], ◌∷◌, map, Text, codes, text_eq,
  text_eq_refl, trim_space, is_empty,
}
use gatstogo.Error.{cooldown, pin_taken, Result, ok, err}
use gatstogo.Db.Schema.{Db, Role, UserRow}
use gatstogo.Db.Table.{exists_where, count_where}
use gatstogo.Db.Statement.{connected}
use gatstogo.Redis.Memory.{Memory, empty_memory, shown, memory}
use gatstogo.Redis.Memory.Laws.{memory_answers}
use gatstogo.Shifts.PinLimiter.{
  max_pin_attempts, lockout_ttl, attempts_key, locked, record_failures,
}
use gatstogo.Shifts.PinLimiter.Lockout.{fifth_failure_locks}
use gatstogo.ReceiptCodes.{code_key, lock_key, six_digits, request_code, verify_code}
use gatstogo.ReceiptCodes.SingleUse.{submissions, verify_code_once, request_then_verify}
use gatstogo.Tickets.Phone.{normalize_phone}
use gatstogo.ReceiptPages.{VerifyReply, receipts_verify}
use gatstogo.ReceiptPages.Admitted.{LetsIn, receipts_verify-admitted}
use gatstogo.Examples.Codec.{codec, uuid_text, uuid_parse}
use gatstogo.Staff.{
  CreateParams, valid_pin, staff_role, has_pin, new_user, same_user_id, same_phone, create,
}
use gatstogo.Staff.Pins.{Complete, create_pin_alone}
use gatstogo.Examples.{a_db}

abbrev ada : Text
ada = codes "8f0c"

fifth_failure_locks_example :
    ((n : ℕ)
      → n < max_pin_attempts
      → ((locked memory ada (record_failures memory n ada empty_memory)).0 ≡ ok none)
        × (memory_answers.count (record_failures memory n ada empty_memory) (attempts_key ada)
            ≡ some n))
    × ((locked memory ada (record_failures memory max_pin_attempts ada empty_memory)).0
        ≡ ok (some lockout_ttl))
    × (memory_answers.count
          (record_failures memory max_pin_attempts ada empty_memory)
          (attempts_key ada)
        ≡ some 0)
unfolding memory_answers
fifth_failure_locks_example = fifth_failure_locks memory memory_answers ada empty_memory refl refl

abbrev phone : Text
phone = codes "8031234567"

-- The memory with a code for the phone.
abbrev coded : Memory
coded = (memory.set (code_key ada phone) (codes "042917") 60 empty_memory).1

code_held : shown (coded (code_key ada phone)) ≡ some (codes "042917")
unfolding memory shown text_eq
code_held = refl

lock_free : shown (coded (lock_key ada phone)) ≡ none
unfolding memory shown text_eq
lock_free = refl

verify_code_once_example :
    let (answer, r') = verify_code memory ada phone (codes "042917") coded in
    (answer ≡ ok true)
    × ((later : List Text)
        → submissions memory ada phone later r' ≡ (map (λ submitted. ok false) later, r'))
unfolding memory_answers
verify_code_once_example =
    verify_code_once memory memory_answers ada phone (codes "042917") coded refl lock_free code_held

-- The memory with a code for the plant 1 and the phone.
abbrev waiting : Memory
waiting = (memory.set (code_key (uuid_text 1) phone) (codes "042917") 60 empty_memory).1

abbrev customer_signs_in : VerifyReply × Memory
customer_signs_in =
    receipts_verify memory codec uuid_text (some 1) (some (codes "0803 123 4567", codes "042917 "))
      (ok (1 ∷ 2 ∷ 3 ∷ [])) 100 waiting

customer_signed_in : customer_signs_in.0 ≡ VerifyReply.signed_in (codes "AQID")
unfolding receipts_verify memory codec text_eq
customer_signed_in = refl

phone_left : is_empty (normalize_phone (trim_space (codes "0803 123 4567"))) ≡ false
unfolding normalize_phone trim_space
phone_left = refl

receipts_verify-admitted_example :
    (memory_answers.text waiting
        (lock_key (uuid_text 1) (normalize_phone (trim_space (codes "0803 123 4567"))))
      ≡ none)
    × (memory_answers.text waiting
          (code_key (uuid_text 1) (normalize_phone (trim_space (codes "0803 123 4567"))))
        ≡ some (trim_space (codes "042917 ")))
    × LetsIn memory memory_answers codec uuid_text uuid_parse
        (ok (1 ∷ 2 ∷ 3 ∷ []))
        100
        1
        (normalize_phone (trim_space (codes "0803 123 4567")))
        (codes "AQID")
        customer_signs_in.1
receipts_verify-admitted_example =
    receipts_verify-admitted memory memory_answers codec uuid_text uuid_parse (ok (1 ∷ 2 ∷ 3 ∷ []))
      100 1 (codes "0803 123 4567") (codes "042917 ") (codes "AQID") waiting phone_left
      customer_signed_in

request_then_verify_example :
    let (answer, r') = request_code memory ada phone (ok 42917) empty_memory in
    (answer ≡ ok (six_digits 42917))
    × ((verify_code memory ada phone (six_digits 42917) r').0 ≡ ok true)
    × (request_code memory ada phone (ok 7) r' ≡ (err cooldown, r'))
unfolding memory_answers
request_then_verify_example =
    request_then_verify memory memory_answers ada phone 42917 (ok 7) empty_memory refl refl

-- A hash that is the text itself.
abbrev plain : Text → Result Text
plain text = ok text

plain_verifies : (text h : Text) → plain text ≡ ok h → text_eq h text ≡ true
plain_verifies text h e = let same : text ≡ h = cc in rw (← same) (text_eq_refl text)

abbrev chidi : CreateParams
chidi = record {
  name = codes "Chidi";
  phone = codes "0805";
  role = codes "cashier";
  pin = codes "4821";
}

abbrev dayo : CreateParams
dayo = record {
  name = codes "Dayo";
  phone = codes "0806";
  role = codes "manager";
  pin = codes "4821 ";
}

chidi-Complete : Complete chidi Role.cashier
unfolding trim_space valid_pin staff_role text_eq
chidi-Complete = record { name = refl; phone = refl; pin = refl; role_name = refl }

dayo-Complete : Complete dayo Role.manager
unfolding trim_space valid_pin staff_role text_eq
dayo-Complete = record { name = refl; phone = refl; pin = refl; role_name = refl }

same_pin : trim_space (codes "4821 ") ≡ trim_space (codes "4821")
unfolding trim_space
same_pin = refl

plain_hash : plain (trim_space (codes "4821")) ≡ ok (codes "4821")
unfolding trim_space
plain_hash = refl

abbrev with_chidi : Db
with_chidi = record a_db {
  users =
      new_user plain text_eq 1 (trim_space (codes "Chidi")) (trim_space (codes "0805")) Role.cashier
        (codes "4821") 50
      ∷ [];
}

unused : exists_where (has_pin plain text_eq 1 (trim_space (codes "4821"))) a_db.users ≡ false
unfolding exists_where
unused = refl

abbrev chidi_row : UserRow
chidi_row =
    new_user plain text_eq 1 (trim_space (codes "Chidi")) (trim_space (codes "0805")) Role.cashier
      (codes "4821") 50

free_id : exists_where (same_user_id chidi_row) a_db.users ≡ false
unfolding exists_where
free_id = refl

free_phone : exists_where (same_phone chidi_row) a_db.users ≡ false
unfolding exists_where
free_phone = refl

create_pin_alone_example :
    (create plain text_eq 1 chidi 50 (connected true (some 1) 200 a_db)
      ≡ (ok 50, connected true (some 1) 200 with_chidi))
    × (count_where (has_pin plain text_eq 1 (trim_space (codes "4821"))) with_chidi.users ≡ 1)
    × (create plain text_eq 1 dayo 51 (connected true (some 1) 200 with_chidi)
        ≡ (err pin_taken, connected true (some 1) 200 with_chidi))
create_pin_alone_example =
    create_pin_alone plain text_eq 1 true (some 1) 200 chidi Role.cashier 50 (codes "4821") a_db
      dayo Role.manager 51 plain_verifies chidi-Complete unused plain_hash free_id free_phone
      dayo-Complete same_pin
