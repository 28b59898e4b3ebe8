-- ===== src/Redis/Memory.antt =====
-- A server in memory that never fails, whose clock stands still, for the tests.
pub mod Laws
use gatstogo.Base.{
  ℕ, zero, suc, ◌+◌, ◌<◌, ◌≡◌, refl, Bool, true, false, ℤ, pos, negsuc, Option, none, some, List,
  [], ◌∷◌, Text, text_eq, arith, text_eq_refl, text_eq_iff, ap, sym, ◌∙◌, Bool-cases, inl, inr,
  if◌then◌else◌, ltb, ◌/◌, ◌%◌,
}
use gatstogo.Error.{Error, Result, ok, err}
use gatstogo.Redis.{Redis, Answers, max_counter}

-- What SET wrote, or what INCR counts.
pub data Value : Type 0 where
  chars : Text → Value
  number : ℕ → Value

pub record Entry : Type 0 where
  pub value : Value
  pub life : ℕ

abbrev pub Memory : Type 0
Memory = Text → Option Entry

abbrev pub empty_memory : Memory
empty_memory k = none

-- The memory with another entry under a key.
abbrev pub put : Text → Option Entry → Memory → Memory
put k e m k' = if text_eq k k' then e else m k'

abbrev written : Text → ℕ → Option Entry
written v t = some (record { value = Value.chars v; life = t })

-- The decimal digits of a number with at most twenty of them.
decimal_from : ℕ → ℕ → Text → Text
decimal_from zero n s = s
decimal_from (suc left) n s =
    let s' : Text = (b'0' + n % 10) ∷ s in
    let longer = decimal_from left (n / 10) s' in if ltb n 10 then s' else longer

show_value : Value → Text
unfolding decimal_from
show_value (Value.chars s) = s
show_value (Value.number n) = decimal_from 20 n []

unfoldable pub shown : Option Entry → Option Text
unfolding show_value
shown none = none
shown (some e) = some (show_value e.value)

number_of : Value → Option ℕ
number_of (Value.chars s) = none
number_of (Value.number n) = some n

unfoldable pub counted : Option Entry → Option ℕ
unfolding number_of
counted none = some 0
counted (some e) = number_of e.value

unfoldable pub life_of : Option Entry → ℕ
life_of none = 0
life_of (some e) = e.life

expiry : ℕ → ℤ
expiry zero = negsuc 0
expiry (suc t) = pos (suc t)

unfoldable pub time_left : Option Entry → ℤ
unfolding expiry
time_left none = negsuc 1
time_left (some e) = expiry e.life

unfoldable pub present : Option Entry → ℕ
present none = 0
present (some e) = 1

-- INCR keeps the expiry, and fails for a text and at the largest number.
unfoldable pub incr_from : Text → Memory → Option ℕ → Result ℕ × Memory
unfolding life_of
incr_from k m none = (err Error.driver, m)
incr_from k m (some n) =
    if ltb n max_counter
    then (
      ok (suc n),
      put k (some (record { value = Value.number (suc n); life = life_of (m k) })) m,
    )
    else (err Error.driver, m)

unfoldable pub set_free : Text → Text → ℕ → Memory → Option Entry → Result Bool × Memory
set_free k v t m none = (ok true, put k (written v t) m)
set_free k v t m (some e) = (ok false, m)

-- EXPIRE with no time left deletes the key.
unfoldable pub renewed : ℕ → Entry → Option Entry
renewed zero e = none
renewed (suc t) e = some (record e { life = suc t })

unfoldable pub expire_if : Text → ℕ → Memory → Option Entry → Result Bool × Memory
unfolding renewed
expire_if k t m none = (ok false, m)
expire_if k t m (some e) = (ok true, put k (renewed t e) m)

unfoldable pub memory : Redis Memory
unfolding time_left incr_from set_free expire_if present shown counted
memory = record {
  ttl = λ k m. (ok (time_left (m k)), m);
  incr = λ k m. incr_from k m (counted (m k));
  expire = λ k t m. expire_if k t m (m k);
  set = λ k v t m. (ok tt, put k (written v t) m);
  set_nx = λ k v t m. set_free k v t m (m k);
  get = λ k m. (ok (shown (m k)), m);
  get_del = λ k m. (ok (shown (m k)), put k none m);
  exists = λ k m. (ok (present (m k)), m);
  del = λ k m. (ok tt, put k none m);
}
