-- ===== src/ReceiptCodes/Accepted.antt =====
-- internal/receipts/receipts.go: which code VerifyCode accepts.
use gatstogo.Base.{
  ◌≡◌, refl, ap, Bool-cases, inl, inr, Option, none, some, Text, text_eq, text_eq_iff, is_empty,
  true,
}
use gatstogo.Error.{ok}
use gatstogo.Redis.{Redis, Answers}
use gatstogo.ReceiptCodes.{code_key, lock_key, verify_code, compare_code, unless_locked}

module _ {ℓ} {R : Type ℓ} (redis : Redis R) (server : Answers redis) where
  -- A code that was accepted is the one that was stored.
  compare_code-true :
      (plant phone submitted : Text) (held : Option Text) (r : R)
      → (compare_code redis plant phone submitted (ok held) r).0 ≡ ok true
      → held ≡ some submitted
  unfolding compare_code
  compare_code-true plant phone submitted none r h = cc
  compare_code-true plant phone submitted (some code) r h =
      elim (Bool-cases (text_eq code submitted)) [
        | inl same ↦ ap some ((text_eq_iff code submitted).0 same)
        | inr other ↦ let h' = rw other at h in cc
      ]

  unless_locked-true :
      (plant phone submitted : Text) (held : Option Text) (r : R)
      → server.text r (lock_key plant phone) ≡ held
      → (unless_locked redis plant phone submitted
          (redis.exists (lock_key plant phone) r).0
          (redis.exists (lock_key plant phone) r).1).0
        ≡ ok true
      → (held ≡ none) × (server.text r (code_key plant phone) ≡ some submitted)
  unfolding unless_locked
  unless_locked-true plant phone submitted none r e h =
      let h' = rw (server.exists_none (lock_key plant phone) r e) at h in
      let h'' = rw (server.get_ok (code_key plant phone) r) at h' in
      (refl, compare_code-true plant phone submitted _ r h'')
  unless_locked-true plant phone submitted (some v) r e h =
      let h' = rw (server.exists_some (lock_key plant phone) v r e) at h in cc

  pub verify_code-true :
      (plant phone submitted : Text) (r : R)
      → (verify_code redis plant phone submitted r).0 ≡ ok true
      → (server.text r (lock_key plant phone) ≡ none)
        × (server.text r (code_key plant phone) ≡ some submitted)
  unfolding verify_code
  verify_code-true plant phone submitted r h = elim (Bool-cases (is_empty submitted)) [
    | inl blank ↦ let h' = rw blank at h in cc
    | inr filled ↦ let h' = rw filled at h in unless_locked-true plant phone submitted _ r refl h'
  ]
