-- ===== src/Session/Guards/Receipts.antt =====
-- RequireReceiptSession of internal/middleware/session.go: a customer's session from its creation to a
-- request that carries it.
use gatstogo.Base.{ℕ, ◌≡◌, refl, false, Option, some, List, Text, text_eq_refl, is_empty}
use gatstogo.Error.{Result, ok}
use gatstogo.Redis.{Redis, Answers}
use gatstogo.Session.{Data, Codec, role_customer, create}
use gatstogo.Session.Guards.{
  Actor, Outcome, admit, customer_actor, receipt_loaded, require_receipt_session,
}
use gatstogo.Session.Guards.Login.{load-create}

module _ {ℓ} {R : Type ℓ} (redis : Redis R) (server : Answers redis) (json : Codec)
    (uuid_text : ℕ → Text) (uuid_parse : Text → Option ℕ) where
  -- A customer's session with a phone number opens the receipts of the phone at its plant.
  pub created_customer_session :
      (d : Data) (home ttl now : ℕ) (bytes : Result (List ℕ)) (r : R) (token : Text)
      → d.role ≡ role_customer
      → d.plant_id ≡ uuid_text home
      → is_empty d.phone ≡ false
      → (create redis json d ttl bytes now r).0 ≡ ok token
      → (actor : Actor) × ((require_receipt_session redis json uuid_text uuid_parse
            (some home)
            (some token)
            (create redis json d ttl bytes now r).1).0
          ≡ Outcome.admitted actor)
        × (actor.phone ≡ d.phone)
        × (actor.plant_id ≡ some home)
  unfolding require_receipt_session receipt_loaded customer_actor admit
  created_customer_session d home ttl now bytes r token role place filled made =
      rw (load-create redis server json d ttl bytes now r token made) (
        rw (role, place, text_eq_refl role_customer, text_eq_refl (uuid_text home), filled)
          (_, refl, refl, refl))
