-- ===== src/Session/Guards/Admission.antt =====
-- internal/middleware/session.go over internal/session/session.go: whom the guards let in.
use gatstogo.Base.{
  ℕ, ◌≡◌, refl, Bool, true, false, ◌&&◌, ◌||◌, Bool-cases, inl, inr, Option, none, some, Text,
  text_eq, text_eq_iff, arith,
}
use gatstogo.Error.{Error, Result, ok, err}
use gatstogo.Redis.{Redis}
use gatstogo.Session.{
  Data, Codec, role_owner, role_manager, role_cashier, role_operator, role_customer, load,
  receipt_session_ttl,
}
use gatstogo.Session.Guards.{
  Actor, Outcome, admit, is_owner_of, owner_as, owner_loaded, require_owner_session, is_staff_of,
  staff_as, staff_actor, parsed_pump, staff_loaded, require_staff_session, is_customer_of,
  customer_actor, receipt_loaded, require_receipt_session,
}

-- The roles that each guard lets in.
abbrev pub is_owner_role : Text → Bool
is_owner_role role = text_eq role role_owner || text_eq role role_manager

abbrev pub is_staff_role : Text → Bool
is_staff_role role =
    text_eq role role_manager || text_eq role role_cashier || text_eq role role_operator

abbrev is_customer_role : Text → Bool
is_customer_role role = text_eq role role_customer

pub data Guard : Type 0 where
  owner : Guard
  staff : Guard
  receipts : Guard

abbrev pub allowed : Guard → Text → Bool
allowed Guard.owner = is_owner_role
allowed Guard.staff = is_staff_role
allowed Guard.receipts = is_customer_role

pub &&-true : (a b : Bool) → (a && b) ≡ true → (a ≡ true) × (b ≡ true)
&&-true true b h = (refl, h)
&&-true false b h = cc

module _ {ℓ} {R : Type ℓ} (redis : Redis R) (json : Codec) (uuid_text : ℕ → Text)
    (uuid_parse : Text → Option ℕ) (plant : ℕ) (token : Text) where
  -- The actor stands for a session of the plant that the server holds under the cookie's token, in
  -- one of the roles.
  abbrev pub StandsFor : (Text → Bool) → R → Actor → Type 0
  StandsFor allowed r actor =
      (d : Data) × (◌≡◌ {A = Result Data} (load redis json token r).0 (ok d))
      × (d.plant_id ≡ uuid_text plant)
      × (allowed d.role ≡ true)
      × (actor.role ≡ d.role)
      × (actor.plant_id ≡ some plant)
      × (actor.token ≡ token)

  abbrev Is : Data → Actor → Type 0
  Is d actor = (actor.role ≡ d.role) × (actor.plant_id ≡ some plant) × (actor.token ≡ token)

  owner_as-Is :
      (d : Data) (user : Option ℕ) (r : R) (actor : Actor)
      → (owner_as redis json uuid_text uuid_parse plant token d user r).0 ≡ Outcome.admitted actor
      → Is d actor
  unfolding owner_as admit
  owner_as-Is d none r actor e = cc
  owner_as-Is d (some user) r actor e = ground arith

  owner_loaded-StandsFor :
      (loaded : Result Data) (r s : R) (actor : Actor)
      → (load redis json token r).0 ≡ loaded
      → (owner_loaded redis json uuid_text uuid_parse plant token loaded s).0
        ≡ Outcome.admitted actor
      → StandsFor is_owner_role r actor
  unfolding owner_loaded
  owner_loaded-StandsFor (err e) r s actor l h = cc
  owner_loaded-StandsFor (ok d) r s actor l h =
      elim (Bool-cases (is_owner_of redis json uuid_text uuid_parse plant d)) [
        | inl pass ↦
            let h' = rw pass at h in
            let (role, place) = &&-true _ _ pass in
            let (a, b, c) = owner_as-Is d (uuid_parse d.user_id) s actor h' in
            (d, l, (text_eq_iff d.plant_id (uuid_text plant)).0 place, role, a, b, c)
        | inr bad ↦ let h' = rw bad at h in cc
      ]

  staff_as-Is :
      (d : Data) (user shift : Option ℕ) (pump : Option (Option ℕ)) (r : R) (actor : Actor)
      → (staff_as redis json uuid_text uuid_parse plant token d user shift pump r).0
        ≡ Outcome.admitted actor
      → Is d actor
  unfolding staff_as admit staff_actor
  staff_as-Is d (some user) (some shift) (some pump) r actor e = ground arith
  staff_as-Is d none shift pump r actor e = cc
  staff_as-Is d (some user) none pump r actor e = cc
  staff_as-Is d (some user) (some shift) none r actor e = cc

  staff_loaded-StandsFor :
      (loaded : Result Data) (r s : R) (actor : Actor)
      → (load redis json token r).0 ≡ loaded
      → (staff_loaded redis json uuid_text uuid_parse plant token loaded s).0
        ≡ Outcome.admitted actor
      → StandsFor is_staff_role r actor
  unfolding staff_loaded
  staff_loaded-StandsFor (err e) r s actor l h = cc
  staff_loaded-StandsFor (ok d) r s actor l h =
      elim (Bool-cases (is_staff_of redis json uuid_text uuid_parse plant d)) [
        | inl pass ↦
            let h' = rw pass at h in
            let (both, rest) = &&-true _ _ pass in
            let (role, place) = &&-true _ _ both in
            let (a, b, c) =
              staff_as-Is d (uuid_parse d.user_id) (uuid_parse d.shift_id)
                (parsed_pump redis json uuid_text uuid_parse d.pump_id) s actor h' in
            (d, l, (text_eq_iff d.plant_id (uuid_text plant)).0 place, role, a, b, c)
        | inr bad ↦ let h' = rw bad at h in cc
      ]

  receipt_as-Is :
      (d : Data) (r : R) (actor : Actor)
      → (admit redis json uuid_text uuid_parse receipt_session_ttl token
          (customer_actor redis json uuid_text uuid_parse plant token d)
          r).0
        ≡ Outcome.admitted actor
      → Is d actor
  unfolding admit customer_actor
  receipt_as-Is d r actor e = ground arith

  receipt_loaded-StandsFor :
      (loaded : Result Data) (r s : R) (actor : Actor)
      → (load redis json token r).0 ≡ loaded
      → (receipt_loaded redis json uuid_text uuid_parse plant token loaded s).0
        ≡ Outcome.admitted actor
      → StandsFor is_customer_role r actor
  unfolding receipt_loaded
  receipt_loaded-StandsFor (err e) r s actor l h = cc
  receipt_loaded-StandsFor (ok d) r s actor l h =
      elim (Bool-cases (is_customer_of redis json uuid_text uuid_parse plant d)) [
        | inl pass ↦
            let h' = rw pass at h in
            let (both, rest) = &&-true _ _ pass in
            let (role, place) = &&-true _ _ both in
            let (a, b, c) = receipt_as-Is d s actor h' in
            (d, l, (text_eq_iff d.plant_id (uuid_text plant)).0 place, role, a, b, c)
        | inr bad ↦ let h' = rw bad at h in cc
      ]

  unfoldable pub guarded : Guard → R → Outcome × R
  guarded Guard.owner =
      require_owner_session redis json uuid_text uuid_parse (some plant) (some token)
  guarded Guard.staff =
      require_staff_session redis json uuid_text uuid_parse (some plant) (some token)
  guarded Guard.receipts =
      require_receipt_session redis json uuid_text uuid_parse (some plant) (some token)

  -- Whoever a guard of a plant's pages lets in has a session under the token of the cookie, which is
  -- a session of that plant in a role of that guard: an owner or a manager, a manager, cashier or
  -- operator, and a customer; and goes on under the session's role, at that plant, with that token.
  pub admitted-StandsFor :
      (guard : Guard) (r : R) (actor : Actor)
      → (guarded guard r).0 ≡ Outcome.admitted actor
      → StandsFor (allowed guard) r actor
  unfolding guarded require_owner_session require_staff_session require_receipt_session
  admitted-StandsFor Guard.owner r actor =
      owner_loaded-StandsFor _ r (load redis json token r).1 actor refl
  admitted-StandsFor Guard.staff r actor =
      staff_loaded-StandsFor _ r (load redis json token r).1 actor refl
  admitted-StandsFor Guard.receipts r actor =
      receipt_loaded-StandsFor _ r (load redis json token r).1 actor refl

  -- Without a session under the token no guard lets anybody in.
  pub guarded-missing :
      (guard : Guard) (r : R) (e : Error)
      → (load redis json token r).0 ≡ err e
      → (guarded guard r).0 ≡ Outcome.turned_away true
  unfolding guarded require_owner_session require_staff_session require_receipt_session owner_loaded
      staff_loaded receipt_loaded
  guarded-missing Guard.owner r e h = rw h refl
  guarded-missing Guard.staff r e h = rw h refl
  guarded-missing Guard.receipts r e h = rw h refl
