-- ===== src/ReceiptCodes/SingleUse.antt =====
-- internal/receipts/receipts.go: a code opens the receipts once, and how often one may guess.
use gatstogo.Base.{
  ℕ, ◌≡◌, refl, ap, ◌∙◌, Bool, true, false, Bool-cases, inl, inr, Option, none, some, List, [], ◌∷◌,
  map, Text, text_eq, text_eq_refl, codes, is_empty,
}
use gatstogo.Error.{cooldown, Result, ok, err}
use gatstogo.Redis.{Redis, Answers}
use gatstogo.ReceiptCodes.{
  code_ttl, code_key, fail_key, lock_key, cooldown_key, consume, resend_cooldown, six_digits,
  verify_code, request_code,
}

code_is_not_lock :
    (plant phone : Text) → text_eq (code_key plant phone) (lock_key plant phone) ≡ false
unfolding text_eq
code_is_not_lock plant phone = refl

fail_is_not_lock :
    (plant phone : Text) → text_eq (fail_key plant phone) (lock_key plant phone) ≡ false
unfolding text_eq
fail_is_not_lock plant phone = refl

fail_is_not_code :
    (plant phone : Text) → text_eq (fail_key plant phone) (code_key plant phone) ≡ false
unfolding text_eq
fail_is_not_code plant phone = refl

code_is_not_cooldown :
    (plant phone : Text) → text_eq (code_key plant phone) (cooldown_key plant phone) ≡ false
unfolding text_eq
code_is_not_cooldown plant phone = refl

cooldown_is_not_lock :
    (plant phone : Text) → text_eq (cooldown_key plant phone) (lock_key plant phone) ≡ false
unfolding text_eq
cooldown_is_not_lock plant phone = refl

module _ {ℓ} {R : Type ℓ} (redis : Redis R) (plant phone : Text) where
  -- Submissions one after the other.
  pub submissions : List Text → R → List (Result Bool) × R
  submissions [] r = ([], r)
  submissions (submitted ∷ rest) r =
      let (answer, r') = verify_code redis plant phone submitted r in
      let (answers, r'') = submissions rest r' in (answer ∷ answers, r'')

module _ {ℓ} {R : Type ℓ} (redis : Redis R) (server : Answers redis) (plant phone : Text) where
  abbrev code_held : R → Option Text
  code_held r = server.text r (code_key plant phone)

  abbrev lock_held : R → Option Text
  lock_held r = server.text r (lock_key plant phone)

  accepted :
      (code : Text) (r : R)
      → is_empty code ≡ false
      → lock_held r ≡ none
      → code_held r ≡ some code
      → verify_code redis plant phone code r ≡ (ok true, consume redis plant phone r)
  unfolding verify_code
  accepted code r filled free held =
      rw
        (
          filled,
          server.exists_none (lock_key plant phone) r free,
          server.get_ok (code_key plant phone) r,
          held,
          text_eq_refl code,
        )
        refl

  no_code :
      (submitted : Text) (r : R)
      → lock_held r ≡ none
      → code_held r ≡ none
      → verify_code redis plant phone submitted r ≡ (ok false, r)
  unfolding verify_code
  no_code submitted r free gone = elim (Bool-cases (is_empty submitted)) [
    | inl blank ↦ rw blank refl
    | inr filled ↦
        rw
          (
            filled,
            server.exists_none (lock_key plant phone) r free,
            server.get_ok (code_key plant phone) r,
            gone,
          )
          refl
  ]

  consumed :
      (r : R)
      → lock_held r ≡ none
      → (lock_held (consume redis plant phone r) ≡ none)
        × (code_held (consume redis plant phone r) ≡ none)
  unfolding consume
  consumed r free =
      let r1 = (redis.del (code_key plant phone) r).1 in
      (
        server.del_other (fail_key plant phone) (lock_key plant phone) r1
              (fail_is_not_lock plant phone)
            ∙ server.del_other (code_key plant phone) (lock_key plant phone) r
                (code_is_not_lock plant phone)
            ∙ free,
        server.del_other (fail_key plant phone) (code_key plant phone) r1
              (fail_is_not_code plant phone)
            ∙ server.del_text (code_key plant phone) r,
      )

  none_accepted :
      (codes : List Text) (r : R)
      → lock_held r ≡ none
      → code_held r ≡ none
      → submissions redis plant phone codes r ≡ (map (λ submitted. ok false) codes, r)
  unfolding submissions
  none_accepted [] r free gone = refl
  none_accepted (submitted ∷ rest) r free gone =
      rw (no_code submitted r free gone, none_accepted rest r free gone) refl

  -- Where the phone is not locked out and its code is stored, that code is accepted, and then,
  -- however many codes are submitted for the phone one after the other, with no request between
  -- them, each is answered with a refusal, and they change nothing.
  pub verify_code_once :
      (code : Text) (r : R)
      → is_empty code ≡ false
      → lock_held r ≡ none
      → code_held r ≡ some code
      → let (answer, r') = verify_code redis plant phone code r in
        (answer ≡ ok true)
        × ((later : List Text)
            → submissions redis plant phone later r' ≡ (map (λ submitted. ok false) later, r'))
  verify_code_once code r filled free held =
      let (still_free, gone) = consumed r free in
      rw (accepted code r filled free held)
        (refl, λ later. none_accepted later (consume redis plant phone r) still_free gone)

  -- The state after a request that is let through, with the code that it stores.
  abbrev requested : Text → R → R
  requested code r =
      (redis.set (code_key plant phone) code code_ttl
        (redis.set_nx (cooldown_key plant phone) (codes "1") resend_cooldown r).1).1

  requests :
      (n : ℕ) (r : R)
      → server.text r (cooldown_key plant phone) ≡ none
      → request_code redis plant phone (ok n) r ≡ (ok (six_digits n), requested (six_digits n) r)
  unfolding request_code
  requests n r free =
      rw
        (
          server.set_nx_free (cooldown_key plant phone) (codes "1") resend_cooldown r free,
          server.set_ok,
        )
        refl

  too_soon :
      (random : Result ℕ) (w : Text) (r : R)
      → server.text r (cooldown_key plant phone) ≡ some w
      → request_code redis plant phone random r ≡ (err cooldown, r)
  unfolding request_code
  too_soon random w r taken =
      rw (server.set_nx_taken (cooldown_key plant phone) (codes "1") w resend_cooldown r taken) refl

  not_blank : (n : ℕ) → is_empty (six_digits n) ≡ false
  unfolding six_digits
  not_blank n = refl

  -- For a phone that is neither locked out nor in its cooldown, a request returns a code of six digits
  -- that is then accepted, and a second request before the cooldown ends is refused and changes
  -- nothing.
  pub request_then_verify :
      (n : ℕ) (random : Result ℕ) (r : R)
      → server.text r (cooldown_key plant phone) ≡ none
      → lock_held r ≡ none
      → let (answer, r') = request_code redis plant phone (ok n) r in
        (answer ≡ ok (six_digits n))
        × ((verify_code redis plant phone (six_digits n) r').0 ≡ ok true)
        × (request_code redis plant phone random r' ≡ (err cooldown, r'))
  request_then_verify n random r cool free =
      let r1 = (redis.set_nx (cooldown_key plant phone) (codes "1") resend_cooldown r).1 in
      let r' = requested (six_digits n) r in
      let still_free : lock_held r' ≡ none =
        server.set_other (code_key plant phone) (lock_key plant phone) (six_digits n) code_ttl r1
          (code_is_not_lock plant phone)
        ∙ server.set_nx_other (cooldown_key plant phone) (lock_key plant phone) (codes "1")
            resend_cooldown r (cooldown_is_not_lock plant phone)
        ∙ free in
      let waiting : server.text r' (cooldown_key plant phone) ≡ some (codes "1") =
        server.set_other (code_key plant phone) (cooldown_key plant phone) (six_digits n) code_ttl
          r1 (code_is_not_cooldown plant phone)
        ∙ server.set_nx_text (cooldown_key plant phone) (codes "1") resend_cooldown r cool in
      rw (requests n r cool) (
        refl,
        ap (λ s. s.0)
            (accepted (six_digits n) r' (not_blank n) still_free
              (server.set_text (code_key plant phone) (six_digits n) code_ttl r1)),
        too_soon random (codes "1") r' waiting,
      )
