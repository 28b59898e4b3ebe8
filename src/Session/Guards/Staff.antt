-- ===== src/Session/Guards/Staff.antt =====
-- RequireStaffSession of internal/middleware/session.go: a terminal session from its creation to a
-- request that carries it.
use gatstogo.Base.{
  ℕ, ◌≡◌, refl, true, false, Option, none, some, List, [], ◌∷◌, Text, text_eq_refl, is_empty,
}
use gatstogo.Error.{Result, ok}
use gatstogo.Redis.{Redis, Answers}
use gatstogo.Session.{Data, Codec, load, create}
use gatstogo.Session.Guards.{
  Actor, Outcome, pump_text, admit, staff_actor, parsed_pump, staff_as, staff_loaded,
  require_staff_session,
}
use gatstogo.Session.Guards.Admission.{is_staff_role}
use gatstogo.Session.Guards.Login.{load-create}

module _ {ℓ} {R : Type ℓ} (redis : Redis R) (server : Answers redis) (json : Codec)
    (uuid_text : ℕ → Text) (uuid_parse : Text → Option ℕ)
    (parses : (n : ℕ) → uuid_parse (uuid_text n) ≡ some n) (blank : uuid_parse [] ≡ none) where
  nonempty : (n : ℕ) (t : Text) → uuid_parse t ≡ some n → is_empty t ≡ false
  nonempty n [] e = cc
  nonempty n (c ∷ t) e = refl

  parsed_pump_read :
      (n : ℕ) (t : Text)
      → uuid_parse t ≡ some n
      → parsed_pump redis json uuid_text uuid_parse t ≡ some (some n)
  unfolding parsed_pump
  parsed_pump_read n [] e = cc
  parsed_pump_read n (c ∷ t) e = rw e refl

  parsed_pump-pump_text :
      (pump : Option ℕ)
      → parsed_pump redis json uuid_text uuid_parse (pump_text uuid_text pump) ≡ some pump
  unfolding parsed_pump
  parsed_pump-pump_text none = refl
  parsed_pump-pump_text (some n) = parsed_pump_read n (uuid_text n) (parses n)

  staff_loaded-home :
      (d : Data) (home user shift : ℕ) (pump : Option ℕ) (token : Text) (r : R)
      → is_staff_role d.role ≡ true
      → d.plant_id ≡ uuid_text home
      → d.user_id ≡ uuid_text user
      → d.shift_id ≡ uuid_text shift
      → d.pump_id ≡ pump_text uuid_text pump
      → (actor : Actor) × ((staff_loaded redis json uuid_text uuid_parse home token (ok d) r).0
          ≡ Outcome.admitted actor)
        × (actor.user_id ≡ some user)
        × (actor.role ≡ d.role)
        × (actor.shift_id ≡ some shift)
        × (actor.pump_id ≡ pump)
  unfolding staff_loaded staff_as staff_actor admit
  staff_loaded-home d home user shift pump token r role place who when where_ =
      rw
        (
          role,
          place,
          who,
          when,
          where_,
          text_eq_refl (uuid_text home),
          nonempty shift (uuid_text shift) (parses shift),
          parses user,
          parses shift,
          parsed_pump-pump_text pump,
        )
        (_, refl, refl, refl, refl, refl)

  -- A session of a member of staff opens the terminal to its user, in its shift and at its pump.
  pub created_staff_session :
      (d : Data) (home user shift ttl now : ℕ) (pump : Option ℕ) (bytes : Result (List ℕ)) (r : R)
      (token : Text)
      → is_staff_role d.role ≡ true
      → d.plant_id ≡ uuid_text home
      → d.user_id ≡ uuid_text user
      → d.shift_id ≡ uuid_text shift
      → d.pump_id ≡ pump_text uuid_text pump
      → (create redis json d ttl bytes now r).0 ≡ ok token
      → (actor : Actor) × ((require_staff_session redis json uuid_text uuid_parse
            (some home)
            (some token)
            (create redis json d ttl bytes now r).1).0
          ≡ Outcome.admitted actor)
        × (actor.user_id ≡ some user)
        × (actor.role ≡ d.role)
        × (actor.shift_id ≡ some shift)
        × (actor.pump_id ≡ pump)
  unfolding require_staff_session
  created_staff_session d home user shift ttl now pump bytes r token role place who when where_
        made =
      let after = (load redis json token (create redis json d ttl bytes now r).1).1 in
      rw (load-create redis server json d ttl bytes now r token made) (
        staff_loaded-home (record d { created_at = now }) home user shift pump token after role
          place who when where_)
