-- ===== src/Redis.antt =====
-- The Redis client that internal/shifts, internal/receipts, internal/session and internal/passwordreset
-- use, as an interface: the commands that they send, and what they rely on of a server that answers.
-- Durations are nanoseconds.
pub mod Memory
use gatstogo.Base.{
  ℕ, suc, ◌*◌, ◌<◌, ◌≡◌, Bool, true, false, ℤ, pos, negsuc, Option, none, some, Text, text_eq,
}
use gatstogo.Error.{Error, Result, ok, err}

-- TTL answers a negative number when the key is missing (-2) or does not expire (-1).
pub record Redis {ℓ} (R : Type ℓ) : Type ℓ where
  pub ttl : Text → R → Result ℤ × R
  pub incr : Text → R → Result ℕ × R
  pub expire : Text → ℕ → R → Result Bool × R
  pub set : Text → Text → ℕ → R → Result (Unit {0}) × R
  pub set_nx : Text → Text → ℕ → R → Result Bool × R
  pub get : Text → R → Result (Option Text) × R
  pub get_del : Text → R → Result (Option Text) × R
  pub exists : Text → R → Result ℕ × R
  pub del : Text → R → Result (Unit {0}) × R

-- The number that INCR does not go above.
abbrev pub max_counter : ℕ
max_counter = 9223372036854775807

-- What is under a key, and how each command changes it, while no key runs out: `text` is what GET
-- reads, none exactly when the key is missing, and also of a key that INCR made; `count` is the
-- number that INCR adds to, 0 without the key and none when the text is no number of this range;
-- `life` is what TTL reports in nanoseconds, a whole number of seconds, and 0 of a key that is missing
-- or does not expire. An expiry above zero lasts at least a second with EXPIRE, since the client
-- rounds it up, and EXPIRE with none deletes the key.
pub record Answers {ℓ} {R : Type ℓ} (redis : Redis R) : Type ℓ where
  pub text : R → Text → Option Text
  pub count : R → Text → Option ℕ
  pub life : R → Text → ℕ
  pub count_none : (k : Text) (r : R) → text r k ≡ none → count r k ≡ some 0
  pub ttl_some :
      (k : Text) (r : R) (n : ℕ) → life r k ≡ suc n → (redis.ttl k r).0 ≡ ok (pos (suc n))
  pub ttl_missing : (k : Text) (r : R) → text r k ≡ none → (redis.ttl k r).0 ≡ ok (negsuc 1)
  pub incr_ok :
      (k : Text) (r : R) (n : ℕ)
      → count r k ≡ some n
      → n < max_counter
      → (redis.incr k r).0 ≡ ok (suc n)
  pub incr_count :
      (k : Text) (r : R) (n : ℕ)
      → count r k ≡ some n
      → n < max_counter
      → count (redis.incr k r).1 k ≡ some (suc n)
  pub incr_text :
      (k k' : Text) (r : R) → text_eq k k' ≡ false → text (redis.incr k r).1 k' ≡ text r k'
  pub incr_life : (k k' : Text) (r : R) → life (redis.incr k r).1 k' ≡ life r k'
  pub expire_counted :
      (k : Text) (t n : ℕ) (r : R) → count r k ≡ some (suc n) → (redis.expire k t r).0 ≡ ok true
  pub expire_some :
      (k v : Text) (t : ℕ) (r : R) → text r k ≡ some v → (redis.expire k t r).0 ≡ ok true
  pub expire_none : (k : Text) (t : ℕ) (r : R) → text r k ≡ none → (redis.expire k t r).0 ≡ ok false
  pub expire_count :
      (k k' : Text) (t : ℕ) (r : R) → count (redis.expire k (suc t) r).1 k' ≡ count r k'
  pub expire_text : (k k' : Text) (t : ℕ) (r : R) → text (redis.expire k (suc t) r).1 k' ≡ text r k'
  pub expire_gone : (k : Text) (r : R) → text (redis.expire k 0 r).1 k ≡ none
  pub expire_other :
      (k k' : Text) (t : ℕ) (r : R)
      → text_eq k k' ≡ false
      → text (redis.expire k t r).1 k' ≡ text r k'
  pub expire_life :
      (k k' : Text) (t : ℕ) (r : R)
      → text_eq k k' ≡ false
      → life (redis.expire k t r).1 k' ≡ life r k'
  pub set_ok : (k v : Text) (t : ℕ) (r : R) → (redis.set k v t r).0 ≡ ok tt
  pub set_text : (k v : Text) (t : ℕ) (r : R) → text (redis.set k v t r).1 k ≡ some v
  pub set_life :
      (k v : Text) (seconds : ℕ) (r : R)
      → life (redis.set k v (seconds * 1000000000) r).1 k ≡ seconds * 1000000000
  pub set_nx_free :
      (k v : Text) (t : ℕ) (r : R) → text r k ≡ none → (redis.set_nx k v t r).0 ≡ ok true
  pub set_nx_taken :
      (k v w : Text) (t : ℕ) (r : R) → text r k ≡ some w → redis.set_nx k v t r ≡ (ok false, r)
  pub set_nx_text :
      (k v : Text) (t : ℕ) (r : R) → text r k ≡ none → text (redis.set_nx k v t r).1 k ≡ some v
  pub set_nx_other :
      (k k' v : Text) (t : ℕ) (r : R)
      → text_eq k k' ≡ false
      → text (redis.set_nx k v t r).1 k' ≡ text r k'
  pub set_other :
      (k k' v : Text) (t : ℕ) (r : R)
      → text_eq k k' ≡ false
      → text (redis.set k v t r).1 k' ≡ text r k'
  pub get_ok : (k : Text) (r : R) → redis.get k r ≡ (ok (text r k), r)
  pub get_del_ok : (k : Text) (r : R) → (redis.get_del k r).0 ≡ ok (text r k)
  pub get_del_text : (k : Text) (r : R) → text (redis.get_del k r).1 k ≡ none
  pub get_del_other :
      (k k' : Text) (r : R) → text_eq k k' ≡ false → text (redis.get_del k r).1 k' ≡ text r k'
  pub exists_none : (k : Text) (r : R) → text r k ≡ none → redis.exists k r ≡ (ok 0, r)
  pub exists_some : (k v : Text) (r : R) → text r k ≡ some v → redis.exists k r ≡ (ok 1, r)
  pub del_ok : (k : Text) (r : R) → (redis.del k r).0 ≡ ok tt
  pub del_text : (k : Text) (r : R) → text (redis.del k r).1 k ≡ none
  pub del_other :
      (k k' : Text) (r : R) → text_eq k k' ≡ false → text (redis.del k r).1 k' ≡ text r k'
  pub del_life :
      (k k' : Text) (r : R) → text_eq k k' ≡ false → life (redis.del k r).1 k' ≡ life r k'
