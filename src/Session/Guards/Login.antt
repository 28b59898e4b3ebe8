-- ===== src/Session/Guards/Login.antt =====
-- internal/session/session.go and RequireOwnerSession of internal/middleware/session.go: a session
-- from its creation to a request that carries it.
use gatstogo.Base.{
  ℕ, ◌≡◌, ◌≢◌, refl, sym, ap, ◌∙◌, true, Bool-cases, inl, inr, Option, none, some, List, Text,
  text_eq, text_eq_iff, text_eq_refl,
}
use gatstogo.Error.{session_not_found, Result, ok, err}
use gatstogo.Redis.{Redis, Answers}
use gatstogo.Session.{
  Data, Codec, session_key, load, new_token, create, create_with, decoded, stored, role_admin,
  delete,
}
use gatstogo.Session.Guards.{
  Actor, Outcome, admit, is_owner_of, owner_as, owner_loaded, require_owner_session, admin_as,
  admin_loaded, require_admin_session,
}
use gatstogo.Session.Guards.Admission.{is_owner_role, &&-true}

module _ {ℓ} {R : Type ℓ} (redis : Redis R) (server : Answers redis) (json : Codec) where
  create_with-eq-ok :
      (d : Data) (ttl : ℕ) (minted : Result Text) (r : R) (token : Text)
      → (create_with redis json d ttl minted r).0 ≡ ok token
      → server.text (create_with redis json d ttl minted r).1 (session_key token)
        ≡ some (json.encode d)
  unfolding create_with stored
  create_with-eq-ok d ttl (err e) r token h = cc
  create_with-eq-ok d ttl (ok t) r token h =
      let same : (◌≡◌ {A = Result Text} (ok t) (ok token)) =
        ap (stored redis json t) (sym (server.set_ok (session_key t) (json.encode d) ttl r)) ∙ h in
      let e : t ≡ token = cc in rw e (server.set_text (session_key token) (json.encode d) ttl r)

  -- What Create stores under a token, Load finds there.
  pub load-create :
      (d : Data) (ttl : ℕ) (bytes : Result (List ℕ)) (now : ℕ) (r : R) (token : Text)
      → (create redis json d ttl bytes now r).0 ≡ ok token
      → (load redis json token (create redis json d ttl bytes now r).1).0
        ≡ ok (record d { created_at = now })
  unfolding create load decoded
  load-create d ttl bytes now r token h =
      let kept =
        create_with-eq-ok (record d { created_at = now }) ttl (new_token bytes) r token h in
      rw (server.get_ok (session_key token) (create redis json d ttl bytes now r).1, kept)
        (json.decode-encode (record d { created_at = now }))

module _ {ℓ} {R : Type ℓ} (redis : Redis R) (server : Answers redis) (json : Codec)
    (uuid_text : ℕ → Text) (uuid_parse : Text → Option ℕ)
    (parses : (n : ℕ) → uuid_parse (uuid_text n) ≡ some n) where
  uuid_text_injective : (m n : ℕ) → uuid_text m ≡ uuid_text n → m ≡ n
  uuid_text_injective m n e = let same = sym (parses m) ∙ ap uuid_parse e ∙ parses n in cc

  owner_loaded-home :
      (d : Data) (home user : ℕ) (token : Text) (r : R)
      → is_owner_role d.role ≡ true
      → d.plant_id ≡ uuid_text home
      → d.user_id ≡ uuid_text user
      → (actor : Actor) × ((owner_loaded redis json uuid_text uuid_parse home token (ok d) r).0
          ≡ Outcome.admitted actor)
        × (actor.user_id ≡ some user)
        × (actor.role ≡ d.role)
        × (actor.plant_id ≡ some home)
  unfolding owner_loaded owner_as admit
  owner_loaded-home d home user token r role place who =
      rw (role, place, who, text_eq_refl (uuid_text home), parses user) (_, refl, refl, refl, refl)

  owner_loaded-away :
      (d : Data) (home plant : ℕ) (token : Text) (r : R)
      → d.plant_id ≡ uuid_text home
      → plant ≢ home
      → owner_loaded redis json uuid_text uuid_parse plant token (ok d) r
        ≡ (Outcome.turned_away true, r)
  unfolding owner_loaded
  owner_loaded-away d home plant token r place away =
      elim (Bool-cases (is_owner_of redis json uuid_text uuid_parse plant d)) [
        | inl pass ↦
            let (role, here) = &&-true _ _ pass in
            let same = sym ((text_eq_iff d.plant_id (uuid_text plant)).0 here) ∙ place in
            absurd (away (uuid_text_injective plant home same))
        | inr bad ↦ rw bad refl
      ]

  -- Where the parser of identifiers reads back what it wrote, and Redis answers: a session of an owner
  -- or a manager that Create stored lets its user in at the plant that it names, under its role; at
  -- any other plant the visitor is turned away, with the cookie cleared.
  pub created_owner_session :
      (d : Data) (home user plant ttl now : ℕ) (bytes : Result (List ℕ)) (r : R) (token : Text)
      → is_owner_role d.role ≡ true
      → d.plant_id ≡ uuid_text home
      → d.user_id ≡ uuid_text user
      → plant ≢ home
      → (create redis json d ttl bytes now r).0 ≡ ok token
      → ((actor : Actor) × ((require_owner_session redis json uuid_text uuid_parse
              (some home)
              (some token)
              (create redis json d ttl bytes now r).1).0
            ≡ Outcome.admitted actor)
          × (actor.user_id ≡ some user)
          × (actor.role ≡ d.role)
          × (actor.plant_id ≡ some home))
        × ((require_owner_session redis json uuid_text uuid_parse
              (some plant)
              (some token)
              (create redis json d ttl bytes now r).1).0
            ≡ Outcome.turned_away true)
  unfolding require_owner_session
  created_owner_session d home user plant ttl now bytes r token role place who away made =
      let minted = record d { created_at = now } in
      let r' = (create redis json d ttl bytes now r).1 in
      let found = load-create redis server json d ttl bytes now r token made in
      rw found (
        owner_loaded-home minted home user token (load redis json token r').1 role place who,
        ap (λ (p : Outcome × R). p.0)
            (owner_loaded-away minted home plant token (load redis json token r').1 place away),
      )

  admin_loaded-admitted :
      (d : Data) (user : ℕ) (token : Text) (r : R)
      → d.role ≡ role_admin
      → d.user_id ≡ uuid_text user
      → (actor : Actor) × ((admin_loaded redis json uuid_text uuid_parse token (ok d) r).0
          ≡ Outcome.admitted actor)
        × (actor.user_id ≡ some user)
        × (actor.plant_id ≡ none)
  unfolding admin_loaded admin_as admit text_eq
  admin_loaded-admitted d user token r role who = rw (role, who, parses user) (_, refl, refl, refl)

  owner_loaded-admin :
      (d : Data) (plant : ℕ) (token : Text) (r : R)
      → d.role ≡ role_admin
      → (owner_loaded redis json uuid_text uuid_parse plant token (ok d) r).0
        ≡ Outcome.turned_away true
  unfolding owner_loaded text_eq
  owner_loaded-admin d plant token r role = rw role refl

  -- The session of an admin opens the admin's pages, and no plant's.
  pub created_admin_session :
      (d : Data) (user plant ttl now : ℕ) (bytes : Result (List ℕ)) (r : R) (token : Text)
      → d.role ≡ role_admin
      → d.user_id ≡ uuid_text user
      → (create redis json d ttl bytes now r).0 ≡ ok token
      → ((actor : Actor) × ((require_admin_session redis json uuid_text uuid_parse
              (some token)
              (create redis json d ttl bytes now r).1).0
            ≡ Outcome.admitted actor)
          × (actor.user_id ≡ some user)
          × (actor.plant_id ≡ none))
        × ((require_owner_session redis json uuid_text uuid_parse
              (some plant)
              (some token)
              (create redis json d ttl bytes now r).1).0
            ≡ Outcome.turned_away true)
  unfolding require_owner_session require_admin_session
  created_admin_session d user plant ttl now bytes r token role who made =
      let minted = record d { created_at = now } in
      let after = (load redis json token (create redis json d ttl bytes now r).1).1 in
      rw (load-create redis server json d ttl bytes now r token made) (
        admin_loaded-admitted minted user token after role who,
        owner_loaded-admin minted plant token after role,
      )

module _ {ℓ} {R : Type ℓ} (redis : Redis R) (server : Answers redis) (json : Codec) where
  -- What Delete ended, Load does not find.
  pub load-delete :
      (token : Text) (r : R)
      → (load redis json token (delete redis json token r).1).0 ≡ err session_not_found
  unfolding load delete decoded
  load-delete token r =
      rw
        (
          server.get_ok (session_key token) (redis.del (session_key token) r).1,
          server.del_text (session_key token) r,
        )
        refl
