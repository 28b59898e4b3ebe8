-- ===== src/ReceiptCodes.antt =====
-- internal/receipts/receipts.go: CodeStore with RequestCode, VerifyCode and recordFailure. The random
-- number of a code is an argument.
pub mod SingleUse
pub mod Accepted
use gatstogo.Base.{
  ℕ, zero, suc, ◌+◌, ◌*◌, ◌/◌, ◌%◌, Bool, true, false, Option, none, some, List, [], ◌∷◌, ◌++◌,
  Text, text_eq, codes, is_empty, leb, ltb, ◌==◌, if◌then◌else◌,
}
use gatstogo.Error.{Error, cooldown, locked, Result, ok, err}
use gatstogo.Redis.{Redis}

abbrev pub code_ttl : ℕ
code_ttl = 10 * 60 * 1000000000

abbrev max_verify_attempts : ℕ
max_verify_attempts = 5

abbrev verify_lockout_ttl : ℕ
verify_lockout_ttl = 5 * 60 * 1000000000

abbrev pub resend_cooldown : ℕ
resend_cooldown = 60 * 1000000000

-- The plant's identifier as its text.
abbrev pub code_key : Text → Text → Text
code_key plant phone = codes "receipt_code:" ++ (plant ++ b':' ∷ phone)

abbrev pub fail_key : Text → Text → Text
fail_key plant phone = codes "receipt_code_fail:" ++ (plant ++ b':' ∷ phone)

abbrev pub lock_key : Text → Text → Text
lock_key plant phone = codes "receipt_code_lock:" ++ (plant ++ b':' ∷ phone)

abbrev pub cooldown_key : Text → Text → Text
cooldown_key plant phone = codes "receipt_code_cooldown:" ++ (plant ++ b':' ∷ phone)

abbrev digit : ℕ → ℕ
digit n = b'0' + n % 10

-- %06d of a number below 1000000.
unfoldable pub six_digits : ℕ → Text
six_digits n =
    digit (n / 100000)
    ∷ digit (n / 10000)
    ∷ digit (n / 1000)
    ∷ digit (n / 100)
    ∷ digit (n / 10)
    ∷ digit n
    ∷ []

unfoldable pub new_code : Result ℕ → Result Text
unfolding six_digits
new_code (ok n) = ok (six_digits n)
new_code (err e) = err e

module _ {ℓ} {R : Type ℓ} (redis : Redis R) where
  stored : Text → Result (Unit {0}) → R → Result Text × R
  stored code (ok u) r = (ok code, r)
  stored code (err e) r = (err e, r)

  store_code : Text → Text → Result Text → R → Result Text × R
  unfolding stored
  store_code plant phone (err e) r = (err e, r)
  store_code plant phone (ok code) r =
      let (answer, r') = redis.set (code_key plant phone) code code_ttl r in stored code answer r'

  after_cooldown : Text → Text → Result ℕ → Result Bool → R → Result Text × R
  unfolding store_code new_code
  after_cooldown plant phone random (err e) r = (err e, r)
  after_cooldown plant phone random (ok false) r = (err cooldown, r)
  after_cooldown plant phone random (ok true) r = store_code plant phone (new_code random) r

  unfoldable pub request_code : Text → Text → Result ℕ → R → Result Text × R
  unfolding after_cooldown
  request_code plant phone random r =
      let (acquired, r') = redis.set_nx (cooldown_key plant phone) (codes "1") resend_cooldown r in
      after_cooldown plant phone random acquired r'

  lock_after : Text → Text → ℕ → R → R
  lock_after plant phone n r =
      if leb max_verify_attempts n
      then (redis.set (lock_key plant phone) (codes "1") verify_lockout_ttl r).1
      else r

  counted : Text → Text → ℕ → Result Bool → R → R
  unfolding lock_after
  counted plant phone n (err e) r = r
  counted plant phone n (ok live) r = lock_after plant phone n r

  failed_once_more : Text → Text → Result ℕ → R → R
  unfolding counted lock_after
  failed_once_more plant phone (err e) r = r
  failed_once_more plant phone (ok n) r =
      if n == 1
      then (let (answer, r') = redis.expire (fail_key plant phone) code_ttl r in
          counted plant phone n answer r')
      else lock_after plant phone n r

  -- recordFailure, whose error VerifyCode drops.
  unfoldable pub record_failure : Text → Text → R → R
  unfolding failed_once_more
  record_failure plant phone r =
      let (answer, r') = redis.incr (fail_key plant phone) r in
      failed_once_more plant phone answer r'

  consume : Text → Text → R → R
  consume plant phone r =
      (redis.del (fail_key plant phone) (redis.del (code_key plant phone) r).1).1

  compare_code : Text → Text → Text → Result (Option Text) → R → Result Bool × R
  unfolding record_failure consume text_eq
  compare_code plant phone submitted (err e) r = (err e, r)
  compare_code plant phone submitted (ok none) r = (ok false, r)
  compare_code plant phone submitted (ok (some code)) r =
      if text_eq code submitted
      then (ok true, consume plant phone r)
      else (ok false, record_failure plant phone r)

  unless_locked : Text → Text → Text → Result ℕ → R → Result Bool × R
  unfolding compare_code
  unless_locked plant phone submitted (err e) r = (err e, r)
  unless_locked plant phone submitted (ok (suc n)) r = (err locked, r)
  unless_locked plant phone submitted (ok zero) r =
      let (answer, r') = redis.get (code_key plant phone) r in
      compare_code plant phone submitted answer r'

  unfoldable pub verify_code : Text → Text → Text → R → Result Bool × R
  unfolding unless_locked
  verify_code plant phone submitted r =
      if is_empty submitted
      then (ok false, r)
      else (let (answer, r') = redis.exists (lock_key plant phone) r in
          unless_locked plant phone submitted answer r')
