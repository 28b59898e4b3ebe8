-- ===== src/Shifts/PinLimiter/Lockout.antt =====
-- internal/shifts/shifts.go: what wrong PINs one after the other lead to.
use gatstogo.Base.{
  ℕ, zero, suc, ◌+◌, ◌<◌, ◌≤◌, ◌≡◌, refl, ◌∙◌, false, Bool-cases, inl, inr, none, some, Text,
  text_eq, codes, le→leb, ◌==◌, arith, Option, ap,
}
use gatstogo.Error.{ok}
use gatstogo.Redis.{Redis, Answers, max_counter}
use gatstogo.Shifts.PinLimiter.{
  max_pin_attempts, lockout_ttl, attempt_window, attempts_key, lock_key, locked, remaining,
  after_lock, lock_at, after_expire, after_incr, record_failure, record_failures,
}

keys_differ : (user : Text) → text_eq (attempts_key user) (lock_key user) ≡ false
unfolding text_eq
keys_differ user = refl

module _ {ℓ} {R : Type ℓ} (redis : Redis R) (server : Answers redis) (user : Text) where
  abbrev attempts : R → Option ℕ
  attempts r = server.count r (attempts_key user)

  abbrev lock : R → Option Text
  lock r = server.text r (lock_key user)

  abbrev lock_left : R → ℕ
  lock_left r = server.life r (lock_key user)

  lock_at_below : (n : ℕ) (r : R) → n < max_pin_attempts → lock_at redis user n r ≡ (ok tt, r)
  unfolding lock_at
  lock_at_below n r h = ground arith

  -- At the limit the counter goes and the lock stands for its whole time.
  lock_at_full :
      (n : ℕ) (r : R)
      → max_pin_attempts ≤ n
      → (attempts (lock_at redis user n r).1 ≡ some 0)
        × (lock_left (lock_at redis user n r).1 ≡ lockout_ttl)
  unfolding lock_at after_lock
  lock_at_full n r h =
      let r' = (redis.set (lock_key user) (codes "1") lockout_ttl r).1 in
      rw (le→leb max_pin_attempts n h, server.set_ok)
        (
          server.count_none (attempts_key user) _ (server.del_text (attempts_key user) r'),
          server.del_life (attempts_key user) (lock_key user) r' (keys_differ user)
              ∙ server.set_life (lock_key user) (codes "1") 20 r,
        )

  -- The counter goes up by one and the lock is as it was, and only then does the limit count.
  failure_counted :
      (n : ℕ) (r : R)
      → attempts r ≡ some n
      → n < max_pin_attempts
      → (r' : R) × (record_failure redis user r ≡ lock_at redis user (suc n) r')
        × (attempts r' ≡ some (suc n))
        × (lock r' ≡ lock r)
  unfolding record_failure after_incr after_expire
  failure_counted n r now h =
      let r1 = (redis.incr (attempts_key user) r).1 in
      let small : n < max_counter = omega (arith, h) in
      let counted = server.incr_count (attempts_key user) r n now small in
      let answer = server.incr_ok (attempts_key user) r n now small in
      let kept = server.incr_text (attempts_key user) (lock_key user) r (keys_differ user) in
      elim (Bool-cases (suc n == 1)) [
        | inl first ↦ (
          (redis.expire (attempts_key user) attempt_window r1).1,
          rw (answer, first, server.expire_counted (attempts_key user) attempt_window n r1 counted)
              refl,
          server.expire_count (attempts_key user) (attempts_key user) _ r1 ∙ counted,
          server.expire_other (attempts_key user) (lock_key user) _ r1 (keys_differ user) ∙ kept,
        )
        | inr later ↦ (r1, rw (answer, later) refl, counted, kept)
      ]

  failure_below :
      (n : ℕ) (r : R)
      → attempts r ≡ some n
      → suc n < max_pin_attempts
      → (attempts (record_failure redis user r).1 ≡ some (suc n))
        × (lock (record_failure redis user r).1 ≡ lock r)
  failure_below n r now h =
      let (r', e, counted, kept) = failure_counted n r now (omega (arith, h)) in
      rw (e, lock_at_below (suc n) r' h) (counted, kept)

  failure_full :
      (n : ℕ) (r : R)
      → attempts r ≡ some n
      → n < max_pin_attempts
      → max_pin_attempts ≤ suc n
      → (attempts (record_failure redis user r).1 ≡ some 0)
        × (lock_left (record_failure redis user r).1 ≡ lockout_ttl)
  failure_full n r now h full =
      let (r', e, counted, kept) = failure_counted n r now h in rw e (lock_at_full (suc n) r' full)

  failures_below :
      (m n : ℕ) (r : R)
      → attempts r ≡ some n
      → m + n < max_pin_attempts
      → (attempts (record_failures redis m user r) ≡ some (m + n))
        × (lock (record_failures redis m user r) ≡ lock r)
  unfolding record_failures
  failures_below zero n r now h = (now ∙ ap some (omega arith), refl)
  failures_below (suc m) n r now h =
      let r' = (record_failure redis user r).1 in
      let (counted, kept) = failure_below n r now (omega (arith, h)) in
      let (total, same) = failures_below m (suc n) r' counted (omega (arith, h)) in
      (total ∙ ap some (omega arith), same ∙ kept)

  failures_full :
      (m n : ℕ) (r : R)
      → attempts r ≡ some n
      → suc m + n ≡ max_pin_attempts
      → (attempts (record_failures redis (suc m) user r) ≡ some 0)
        × (lock_left (record_failures redis (suc m) user r) ≡ lockout_ttl)
  unfolding record_failures
  failures_full zero n r now h = failure_full n r now (omega (arith, h)) (omega (arith, h))
  failures_full (suc m) n r now h =
      let (counted, kept) = failure_below n r now (omega (arith, h)) in
      failures_full m (suc n) (record_failure redis user r).1 counted (omega (arith, h))

  locked_for : (t : ℕ) (r : R) → lock_left r ≡ suc t → (locked redis user r).0 ≡ ok (some (suc t))
  unfolding locked remaining
  locked_for t r h = rw (server.ttl_some (lock_key user) r t h) refl

  unlocked : (r : R) → lock r ≡ none → (locked redis user r).0 ≡ ok none
  unfolding locked remaining
  unlocked r h = rw (server.ttl_missing (lock_key user) r h) refl

  -- Of a user who has no lock and no failures counted, with a Redis server that answers and before
  -- the counter runs out: up to four wrong PINs leave the user not locked out with that many counted;
  -- the fifth locks the user out for twenty seconds and starts the count again from zero.
  pub fifth_failure_locks :
      (r : R)
      → attempts r ≡ some 0
      → lock r ≡ none
      → ((n : ℕ)
          → n < max_pin_attempts
          → ((locked redis user (record_failures redis n user r)).0 ≡ ok none)
            × (attempts (record_failures redis n user r) ≡ some n))
        × ((locked redis user (record_failures redis max_pin_attempts user r)).0
            ≡ ok (some lockout_ttl))
        × (attempts (record_failures redis max_pin_attempts user r) ≡ some 0)
  fifth_failure_locks r none_yet open_now =
      let (cleared, left) = failures_full 4 0 r none_yet (omega arith) in
      (
        (λ n h.
            let (total, same) = failures_below n 0 r none_yet (omega (arith, h)) in
            (
              unlocked (record_failures redis n user r) (same ∙ open_now),
              total ∙ ap some (omega arith),
            )),
        locked_for _ (record_failures redis max_pin_attempts user r) left,
        cleared,
      )
