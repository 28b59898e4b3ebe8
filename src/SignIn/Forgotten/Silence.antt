-- ===== src/SignIn/Forgotten/Silence.antt =====
-- cmd/server/auth.go: what the answer to a forgotten password tells the visitor.
use gatstogo.Base.{
  ℕ, ◌≡◌, refl, Bool, true, false, Bool-cases, inl, inr, Option, none, some, List, Text, is_empty,
  trim_space,
}
use gatstogo.Error.{Result}
use gatstogo.Db.Statement.{Store}
use gatstogo.Redis.{Redis}
use gatstogo.SignIn.Forgotten.{for_phone, forgot_within, forgot_password}

module _ {ℓ} {R : Type ℓ} (redis : Redis R) (uuid_text : ℕ → Text)
    (uuid_parse : Text → Option ℕ) where
  for_phone_silent :
      (bytes bytes' : Result (List ℕ)) (plant : ℕ) (phone : Text) (s s' : Store) (r : R)
      → (for_phone redis uuid_text uuid_parse bytes plant phone s r).0
        ≡ (for_phone redis uuid_text uuid_parse bytes' plant phone s' r).0
  unfolding for_phone
  for_phone_silent bytes bytes' plant phone s s' r = elim (Bool-cases (is_empty phone)) [
    | inl gap ↦ rw gap refl
    | inr full ↦ rw full refl
  ]

  forgot_within_silent :
      (bytes bytes' : Result (List ℕ)) (plant : ℕ) (phone : Text) (allowed : Bool) (s s' : Store)
      (r : R)
      → (forgot_within redis uuid_text uuid_parse bytes plant phone allowed s r).0
        ≡ (forgot_within redis uuid_text uuid_parse bytes' plant phone allowed s' r).0
  unfolding forgot_within
  forgot_within_silent bytes bytes' plant phone false s s' r = refl
  forgot_within_silent bytes bytes' plant phone true s s' r =
      for_phone_silent bytes bytes' plant (trim_space phone) s s' r

  -- The answer to a forgotten password is the same whatever users the tables hold, whichever
  -- statements fail, and whether or not a token can be made: it tells nobody which phone numbers have
  -- an account.
  pub forgot_password_silent :
      (bytes bytes' : Result (List ℕ)) (plant : Option ℕ) (form : Option Text) (ip : Text)
      (s s' : Store) (r : R)
      → (forgot_password redis uuid_text uuid_parse bytes plant form ip s r).0
        ≡ (forgot_password redis uuid_text uuid_parse bytes' plant form ip s' r).0
  unfolding forgot_password
  forgot_password_silent bytes bytes' none form ip s s' r = refl
  forgot_password_silent bytes bytes' (some plant) none ip s s' r = refl
  forgot_password_silent bytes bytes' (some plant) (some phone) ip s s' r =
      forgot_within_silent bytes bytes' plant phone _ s s' _
