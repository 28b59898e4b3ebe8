-- ===== src/Error.antt =====
-- The errors of the program: those that a statement or a generator reports, and the sentinel and
-- one-off errors of the packages under internal/ and of cmd/server.

pub data Error : Type 0 where
  -- A driver or server failure, SQLSTATE 23505, 23514 and 25P02, and pgx.ErrNoRows.
  driver unique_violation check_violation in_failed_transaction no_rows : Error
  -- crypto/rand failed, and bcrypt failed.
  rand_failed hash_failed : Error
  -- internal/tickets
  no_unique_code code_not_found code_already_redeemed code_not_payable : Error
  not_paid not_dispensing not_voidable receipt_not_found not_confirmable : Error
  -- internal/shifts
  shift_not_open no_open_shift invalid_kind locked : Error
  -- internal/pumps
  no_working_pump pump_busy pump_not_found : Error
  -- internal/prices, internal/staff
  invalid_price missing_field invalid_role invalid_pin pin_taken phone_taken staff_not_found : Error
  -- internal/reviews
  review_not_found already_submitted invalid_rating no_unique_token : Error
  -- cmd/server
  plant_closed amount_too_small price_not_set terminal_forbidden : Error
  -- internal/receipts, internal/session, internal/passwordreset
  cooldown session_not_found invalid_or_expired : Error
  -- internal/csrf
  no_secret : Error

pub data Result {ℓ} (A : Type ℓ) : Type ℓ where
  ok : A → Result A
  err : Error → Result A
