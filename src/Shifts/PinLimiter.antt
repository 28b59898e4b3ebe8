-- ===== src/Shifts/PinLimiter.antt =====
-- internal/shifts/shifts.go: PINLimiter with Locked, RecordFailure and Reset. The Redis client is a
-- parameter; durations are nanoseconds, as time.Duration counts them.
pub mod Lockout
use gatstogo.Base.{
  ℕ, zero, suc, ◌+◌, ◌*◌, ◌<◌, ◌≡◌, refl, ap, ◌∙◌, sym, Bool, true, false, Bool-cases, inl, inr,
  Option, none, some, List, [], ◌∷◌, ◌++◌, Text, text_eq, text_eq_refl, codes, leb, ◌==◌,
  if◌then◌else◌, ℤ, pos, negsuc, arith,
}
use gatstogo.Error.{Error, Result, ok, err}
use gatstogo.Redis.{Redis}

abbrev pub max_pin_attempts : ℕ
max_pin_attempts = 5

abbrev pub lockout_ttl : ℕ
lockout_ttl = 20 * 1000000000

abbrev pub attempt_window : ℕ
attempt_window = 5 * 60 * 1000000000

abbrev pub attempts_key : Text → Text
attempts_key user = codes "pin_attempts:" ++ user

abbrev pub lock_key : Text → Text
lock_key user = codes "pin_locked:" ++ user

module _ {ℓ} {R : Type ℓ} (redis : Redis R) where
  remaining : Result ℤ → R → Result (Option ℕ) × R
  remaining (ok (pos (suc n))) r = (ok (some (suc n)), r)
  remaining (ok _) r = (ok none, r)
  remaining (err e) r = (err e, r)

  -- Whether the user is locked out, and for how much longer.
  unfoldable pub locked : Text → R → Result (Option ℕ) × R
  unfolding remaining
  locked user r = let (answer, r') = redis.ttl (lock_key user) r in remaining answer r'

  -- if err := Set(…); err != nil { return err }; Del(…); return nil: the error of Del is dropped.
  after_lock : Text → Result (Unit {0}) → R → Result (Unit {0}) × R
  after_lock key (err e) r = (err e, r)
  after_lock key (ok u) r = (ok tt, (redis.del key r).1)

  lock_at : Text → ℕ → R → Result (Unit {0}) × R
  unfolding after_lock
  lock_at user n r =
      if leb max_pin_attempts n
      then (let (answer, r') = redis.set (lock_key user) (codes "1") lockout_ttl r in
          after_lock (attempts_key user) answer r')
      else (ok tt, r)

  after_expire : Text → ℕ → Result Bool → R → Result (Unit {0}) × R
  unfolding lock_at
  after_expire user n (err e) r = (err e, r)
  after_expire user n (ok live) r = lock_at user n r

  after_incr : Text → Result ℕ → R → Result (Unit {0}) × R
  unfolding after_expire lock_at
  after_incr user (err e) r = (err e, r)
  after_incr user (ok n) r =
      if n == 1
      then (let (answer, r') = redis.expire (attempts_key user) attempt_window r in
          after_expire user n answer r')
      else lock_at user n r

  unfoldable pub record_failure : Text → R → Result (Unit {0}) × R
  unfolding after_incr
  record_failure user r =
      let (answer, r') = redis.incr (attempts_key user) r in after_incr user answer r'

  unfoldable pub reset : Text → R → Result (Unit {0}) × R
  reset user r = redis.del (attempts_key user) r

  -- Wrong PINs one after the other.
  unfoldable pub record_failures : ℕ → Text → R → R
  unfolding record_failure
  record_failures zero user r = r
  record_failures (suc n) user r = record_failures n user (record_failure user r).1
