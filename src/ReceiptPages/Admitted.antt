-- ===== src/ReceiptPages/Admitted.antt =====
-- cmd/server/receipts.go: from a code to the receipts of a phone number.
use gatstogo.Base.{
  ℕ, ◌≡◌, refl, ap, Bool, true, false, Bool-cases, inl, inr, Option, none, some, List, Text,
  trim_space, is_empty, arith,
}
use gatstogo.Error.{Error, Result, ok, err}
use gatstogo.Redis.{Redis, Answers}
use gatstogo.Tickets.Phone.{normalize_phone}
use gatstogo.ReceiptCodes.{code_key, lock_key, verify_code}
use gatstogo.ReceiptCodes.Accepted.{verify_code-true}
use gatstogo.Session.{Codec, receipt_session_ttl, create}
use gatstogo.Session.Guards.{Actor, Outcome, require_receipt_session}
use gatstogo.Session.Guards.Receipts.{created_customer_session}
use gatstogo.ReceiptPages.{
  VerifyReply, verify_reply, customer_session, after_code, verify_phone, receipts_verify,
}

verify_reply-eq :
    (answer : Result Text) (token : Text)
    → verify_reply answer ≡ VerifyReply.signed_in token
    → answer ≡ ok token
verify_reply-eq (ok t) token h = let e : t ≡ token = cc in ap ok e
verify_reply-eq (err e) token h = cc

module _ {ℓ} {R : Type ℓ} (redis : Redis R) (server : Answers redis) (json : Codec)
    (uuid_text : ℕ → Text) (uuid_parse : Text → Option ℕ) (bytes : Result (List ℕ)) (now : ℕ) where
  -- The token opens the receipts of the phone at the plant.
  abbrev pub LetsIn : ℕ → Text → Text → R → Type 0
  LetsIn plant phone token r =
      (actor : Actor) × ((require_receipt_session redis json uuid_text uuid_parse (some plant)
          (some token) r).0
        ≡ Outcome.admitted actor)
      × (actor.phone ≡ phone)
      × (actor.plant_id ≡ some plant)

  after_code-LetsIn :
      (plant : ℕ) (phone token : Text) (answer : Result Bool) (r : R)
      → is_empty phone ≡ false
      → (after_code redis json uuid_text plant phone bytes now answer r).0
        ≡ VerifyReply.signed_in token
      → (answer ≡ ok true)
        × LetsIn plant phone token
            (after_code redis json uuid_text plant phone bytes now answer r).1
  unfolding after_code
  after_code-LetsIn plant phone token (err Error.locked) r filled h = cc
  after_code-LetsIn plant phone token (err e) r filled h = ground arith
  after_code-LetsIn plant phone token (ok false) r filled h = cc
  after_code-LetsIn plant phone token (ok true) r filled h =
      let d = customer_session redis json uuid_text plant phone in
      let made = verify_reply-eq (create redis json d receipt_session_ttl bytes now r).0 token h in
      (
        refl,
        created_customer_session redis server json uuid_text uuid_parse d plant receipt_session_ttl
            now bytes r token refl refl filled made,
      )

  -- Where Redis answers, and for a phone of which something is left when it is reduced: a code that
  -- signs a customer in at a plant, trimmed, is the one that was stored for the plant and the
  -- reduced phone, while no lock was on them; and the session's token then opens the receipts of
  -- that phone at that plant.
  pub receipts_verify-admitted :
      (plant : ℕ) (phone code token : Text) (r : R)
      → is_empty (normalize_phone (trim_space phone)) ≡ false
      → (receipts_verify redis json uuid_text (some plant) (some (phone, code)) bytes now r).0
        ≡ VerifyReply.signed_in token
      → (server.text r (lock_key (uuid_text plant) (normalize_phone (trim_space phone))) ≡ none)
        × (server.text r (code_key (uuid_text plant) (normalize_phone (trim_space phone)))
            ≡ some (trim_space code))
        × LetsIn plant
            (normalize_phone (trim_space phone))
            token
            (receipts_verify redis json uuid_text (some plant) (some (phone, code)) bytes now r).1
  unfolding receipts_verify verify_phone
  receipts_verify-admitted plant phone code token r filled h =
      let reduced = normalize_phone (trim_space phone) in
      let look = verify_code redis (uuid_text plant) reduced (trim_space code) r in
      elim (Bool-cases (is_empty (trim_space phone))) [
        | inl gap ↦ let h' = rw gap at h in cc
        | inr full ↦
            let h' = rw full at h in
            let (right, inside) = after_code-LetsIn plant reduced token look.0 look.1 filled h' in
            let (free, held) =
              verify_code-true redis server (uuid_text plant) reduced (trim_space code) r right in
            rw full (free, held, inside)
      ]
