-- ===== src/Redis/Memory/Laws.antt =====
-- The server in memory has what the interface asks for.
use gatstogo.Base.{
  ℕ, suc, ◌<◌, ◌≡◌, refl, true, false, pos, Option, none, some, Text, text_eq, arith, text_eq_refl,
  text_eq_iff, ap, sym, ◌∙◌, Bool-cases, inl, inr, ltb,
}
use gatstogo.Error.{ok}
use gatstogo.Redis.{Answers, max_counter}
use gatstogo.Redis.Memory.{
  Value, Entry, Memory, put, shown, counted, life_of, time_left, incr_from, set_free, renewed,
  expire_if, present, memory,
}

pub put_here : (k : Text) (e : Option Entry) (m : Memory) → put k e m k ≡ e
put_here k e m = rw (text_eq_refl k) refl

pub put_other :
    (k k' : Text) (e : Option Entry) (m : Memory) → text_eq k k' ≡ false → put k e m k' ≡ m k'
put_other k k' e m h = rw h refl

-- What an entry keeps is kept under every key.
put_kept {ℓ} :
    {B : Type ℓ} (f : Option Entry → B) (k k' : Text) (e : Option Entry) (m : Memory)
    → f e ≡ f (m k)
    → f (put k e m k') ≡ f (m k')
put_kept f k k' e m h = elim (Bool-cases (text_eq k k')) [
  | inl same ↦ rw same (h ∙ ap (λ j. f (m j)) ((text_eq_iff k k').0 same))
  | inr apart ↦ rw apart refl
]

pub ttl_some_lem :
    (o : Option Entry) (n : ℕ) → life_of o ≡ suc n → ok (time_left o) ≡ ok (pos (suc n))
unfolding life_of time_left
ttl_some_lem none n h = absurd (omega (arith, h))
ttl_some_lem (some e) n h = rw h refl

pub missing : (o : Option Entry) → shown o ≡ none → o ≡ none
unfolding shown
missing none h = refl
missing (some e) h = cc

pub found : (o : Option Entry) (v : Text) → shown o ≡ some v → (e : Entry) × (o ≡ some e)
unfolding shown
found none v h = cc
found (some e) v h = (e, refl)

pub incr_lem :
    (k : Text) (m : Memory) (n : ℕ)
    → counted (m k) ≡ some n
    → n < max_counter
    → incr_from k m (counted (m k))
      ≡ (ok (suc n), put k (some (record { value = Value.number (suc n); life = life_of (m k) })) m)
unfolding incr_from
incr_lem k m n e h = rw e (ground arith)

pub incr_other :
    (k k' : Text) (m : Memory) (o : Option ℕ) → text_eq k k' ≡ false → (incr_from k m o).1 k' ≡ m k'
unfolding incr_from
incr_other k k' m none h = refl
incr_other k k' m (some n) h = elim (Bool-cases (ltb n max_counter)) [
  | inl below ↦ rw (below, h) refl
  | inr full ↦ rw full refl
]

pub incr_life_lem :
    (k k' : Text) (m : Memory) (o : Option ℕ) → life_of ((incr_from k m o).1 k') ≡ life_of (m k')
unfolding incr_from life_of
incr_life_lem k k' m none = refl
incr_life_lem k k' m (some n) = elim (Bool-cases (ltb n max_counter)) [
  | inl below ↦ rw below (put_kept life_of k k' _ m refl)
  | inr full ↦ rw full refl
]

pub expire_counted_lem :
    (k : Text) (t n : ℕ) (m : Memory) (o : Option Entry)
    → counted o ≡ some (suc n)
    → (expire_if k t m o).0 ≡ ok true
unfolding expire_if counted
expire_counted_lem k t n m none h = absurd (ground arith)
expire_counted_lem k t n m (some e) h = refl

-- An observation that does not read the expiry.
pub expire_kept {ℓ} :
    {B : Type ℓ} (f : Option Entry → B) (k k' : Text) (t : ℕ) (m : Memory) (o : Option Entry)
    → m k ≡ o
    → ((e : Entry) → f (some (record e { life = suc t })) ≡ f (some e))
    → f ((expire_if k (suc t) m o).1 k') ≡ f (m k')
unfolding expire_if renewed
expire_kept f k k' t m none here same = refl
expire_kept f k k' t m (some e) here same = put_kept f k k' _ m (same e ∙ ap f (sym here))

pub expire_gone_lem :
    (k : Text) (m : Memory) (o : Option Entry) → m k ≡ o → shown ((expire_if k 0 m o).1 k) ≡ none
unfolding expire_if renewed shown
expire_gone_lem k m none here = rw here refl
expire_gone_lem k m (some e) here = ap shown (put_here k none m)

pub expire_other_lem :
    (k k' : Text) (t : ℕ) (m : Memory) (o : Option Entry)
    → text_eq k k' ≡ false
    → (expire_if k t m o).1 k' ≡ m k'
unfolding expire_if
expire_other_lem k k' t m none h = refl
expire_other_lem k k' t m (some e) h = put_other k k' _ m h

pub set_free_other :
    (k k' v : Text) (t : ℕ) (m : Memory) (o : Option Entry)
    → text_eq k k' ≡ false
    → (set_free k v t m o).1 k' ≡ m k'
unfolding set_free
set_free_other k k' v t m none h = put_other k k' _ m h
set_free_other k k' v t m (some w) h = refl

unfoldable pub memory_answers : Answers memory
unfolding memory shown counted life_of time_left present
memory_answers = record {
  text = λ m k. shown (m k);
  count = λ m k. counted (m k);
  life = λ m k. life_of (m k);
  count_none = λ k m h. rw (missing (m k) h) refl;
  ttl_some = λ k m n h. ttl_some_lem (m k) n h;
  ttl_missing = λ k m h. rw (missing (m k) h) refl;
  incr_ok = λ k m n e h. ap (λ s. s.0) (incr_lem k m n e h);
  incr_count =
      λ k m n e h. ap (λ s. counted (s.1 k)) (incr_lem k m n e h) ∙ ap counted (put_here k _ m);
  incr_text = λ k k' m h. ap shown (incr_other k k' m (counted (m k)) h);
  incr_life = λ k k' m. incr_life_lem k k' m (counted (m k));
  expire_counted = λ k t n m h. expire_counted_lem k t n m (m k) h;
  expire_some = λ k v t m h. let (e, here) = found (m k) v h in rw here refl;
  expire_none = λ k t m h. rw (missing (m k) h) refl;
  expire_count = λ k k' t m. expire_kept counted k k' t m (m k) refl (λ e. refl);
  expire_text = λ k k' t m. expire_kept shown k k' t m (m k) refl (λ e. refl);
  expire_gone = λ k m. expire_gone_lem k m (m k) refl;
  expire_other = λ k k' t m h. ap shown (expire_other_lem k k' t m (m k) h);
  expire_life = λ k k' t m h. ap life_of (expire_other_lem k k' t m (m k) h);
  set_ok = λ k v t m. refl;
  set_text = λ k v t m. ap shown (put_here k _ m);
  set_life = λ k v t m. ap life_of (put_here k _ m);
  set_nx_free = λ k v t m h. rw (missing (m k) h) refl;
  set_nx_taken = λ k v w t m h. let (e, here) = found (m k) w h in rw here refl;
  set_nx_text = λ k v t m h. rw (missing (m k) h) (ap shown (put_here k _ m));
  set_nx_other = λ k k' v t m h. ap shown (set_free_other k k' v t m (m k) h);
  set_other = λ k k' v t m h. ap shown (put_other k k' _ m h);
  get_ok = λ k m. refl;
  get_del_ok = λ k m. refl;
  get_del_text = λ k m. ap shown (put_here k _ m);
  get_del_other = λ k k' m h. ap shown (put_other k k' _ m h);
  exists_none = λ k m h. rw (missing (m k) h) refl;
  exists_some = λ k v m h. let (e, here) = found (m k) v h in rw here refl;
  del_ok = λ k m. refl;
  del_text = λ k m. ap shown (put_here k _ m);
  del_other = λ k k' m h. ap shown (put_other k k' _ m h);
  del_life = λ k k' m h. ap life_of (put_other k k' _ m h);
}
