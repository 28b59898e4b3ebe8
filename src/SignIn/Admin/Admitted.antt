-- ===== src/SignIn/Admin/Admitted.antt =====
-- cmd/server/auth.go: from an admin's sign-in to the requests that follow it.
use mathlib.Core.List.{Mem}
use gatstogo.Base.{
  ℕ, ◌≡◌, refl, subst, Bool, true, false, ◌||◌, Bool-cases, inl, inr, Option, none, some, List, [],
  ◌∷◌, All, take, Text, text_eq, text_eq_iff, codes, trim_space, is_empty,
}
use gatstogo.Error.{Result, ok, err}
use gatstogo.Db.Schema.{UserRow}
use gatstogo.Db.Table.{select_where}
use gatstogo.Db.Table.Found.{select_where-Selected, take-All}
use gatstogo.Db.Statement.{Store, query}
use gatstogo.Db.Statement.Returns.{statement-Executed}
use gatstogo.Redis.{Redis, Answers}
use gatstogo.Auth.{Bcrypt, verify_password, is_allowed, check_ip_rate_limit}
use gatstogo.Session.{Codec, owner_ttl, create}
use gatstogo.Session.Guards.{Actor, Outcome, require_admin_session, require_owner_session}
use gatstogo.Session.Guards.Admission.{&&-true}
use gatstogo.Session.Guards.Login.{created_admin_session}
use gatstogo.SignIn.{hash_text, login_rate_limit_max, login_rate_limit_window}
use gatstogo.SignIn.Owner.{Reply, verifies}
use gatstogo.SignIn.Owner.Admitted.{login_reply-eq}
use gatstogo.SignIn.Admin.{
  is_admin, is_admin_login, find_admins, first_verified, admin_session, as_admin, with_admins,
  admin_fields, admin_within, admin_login,
}

first_verified-All {ℓ} :
    (P : UserRow → Type ℓ) (bcrypt : Bcrypt) (password : Text) (rows : List UserRow) (u : UserRow)
    → All P rows
    → first_verified bcrypt password rows ≡ some u
    → P u × (verifies bcrypt password u ≡ true)
unfolding first_verified
first_verified-All P bcrypt password [] u h e = cc
first_verified-All P bcrypt password (x ∷ rest) u h e =
    elim (Bool-cases (verifies bcrypt password x)) [
      | inl good ↦
          let e' = rw good at e in
          let same : x ≡ u = cc in
          subst (λ y. P y × (verifies bcrypt password y ≡ true)) same (h.0, good)
      | inr bad ↦ let e' = rw bad at e in first_verified-All P bcrypt password rest u h.1 e'
    ]

abbrev Listed : Text → List UserRow → UserRow → Type 0
Listed phone users u = Mem u users × (is_admin_login phone u ≡ true)

find_admins-All :
    (phone : Text) (s : Store) (rows : List UserRow)
    → (find_admins phone s).0 ≡ ok rows
    → All (Listed phone s.db.users) rows
unfolding find_admins query
find_admins-All phone s rows h =
    let listed = take-All _ 5 _ (select_where-Selected (is_admin_login phone) s.db.users) in
    let (e, n) = statement-Executed _ rows s h in
    let same : take 5 (select_where (is_admin_login phone) s.db.users) ≡ rows = cc in
    subst (All (Listed phone s.db.users)) same listed

module _ {ℓ} {R : Type ℓ} (redis : Redis R) (json : Codec) (uuid_text : ℕ → Text) (bcrypt : Bcrypt)
    (bytes : Result (List ℕ)) (now : ℕ) where
  abbrev Made : UserRow → Text → R → R → Type ℓ
  Made u token r r' =
      let made =
        create redis json (admin_session redis json uuid_text bcrypt bytes now u) owner_ttl bytes
          now r in
      (made.0 ≡ ok token) × (r' ≡ made.1)

  as_admin-Made :
      (account : Option UserRow) (r : R) (token : Text)
      → (as_admin redis json uuid_text bcrypt bytes now account r).0 ≡ Reply.signed_in token
      → (u : UserRow) × (account ≡ some u)
        × Made u token r (as_admin redis json uuid_text bcrypt bytes now account r).1
  unfolding as_admin
  as_admin-Made none r token h = cc
  as_admin-Made (some u) r token h = (u, refl, (login_reply-eq _ token h, refl))

  with_admins-Made :
      (phone password : Text) (users : List UserRow) (rows : Result (List UserRow)) (r : R)
      (token : Text)
      → ((found : List UserRow) → rows ≡ ok found → All (Listed phone users) found)
      → (with_admins redis json uuid_text bcrypt bytes now password rows r).0
        ≡ Reply.signed_in token
      → (u : UserRow) × (Listed phone users u × (verifies bcrypt password u ≡ true))
        × Made u token r (with_admins redis json uuid_text bcrypt bytes now password rows r).1
  unfolding with_admins
  with_admins-Made phone password users (err e) r token listed h = cc
  with_admins-Made phone password users (ok found) r token listed h =
      let (u, first, made) = as_admin-Made (first_verified bcrypt password found) r token h in
      (
        u,
        first_verified-All (Listed phone users) bcrypt password found u (listed found refl) first,
        made,
      )

  abbrev SignedIn : Text → Text → Text → Store → R → Type ℓ
  SignedIn phone password token s r' =
      (u : UserRow) × (r : R) × (Listed phone s.db.users u × (verifies bcrypt password u ≡ true))
      × Made u token r r'

  admin_fields-SignedIn :
      (phone password token : Text) (s : Store) (r : R)
      → (admin_fields redis json uuid_text bcrypt bytes now phone password s r).0
        ≡ Reply.signed_in token
      → SignedIn phone password token s
          (admin_fields redis json uuid_text bcrypt bytes now phone password s r).2
  unfolding admin_fields
  admin_fields-SignedIn phone password token s r h =
      elim (Bool-cases (is_empty phone || is_empty password)) [
        | inl gap ↦ let h' = rw gap at h in cc
        | inr full ↦
            let h' = rw full at h in
            let (u, fits, made) =
              with_admins-Made phone password s.db.users (find_admins phone s).0 r token
                (find_admins-All phone s) h' in
            rw full (u, r, fits, made)
      ]

  admin_within-SignedIn :
      (phone password token : Text) (allowed : Bool) (s : Store) (r : R)
      → (admin_within redis json uuid_text bcrypt bytes now phone password allowed s r).0
        ≡ Reply.signed_in token
      → SignedIn
          (trim_space phone)
          password
          token
          s
          (admin_within redis json uuid_text bcrypt bytes now phone password allowed s r).2
  unfolding admin_within
  admin_within-SignedIn phone password token false s r h = cc
  admin_within-SignedIn phone password token true s r h =
      admin_fields-SignedIn (trim_space phone) password token s r h

  module _ (server : Answers redis) (uuid_parse : Text → Option ℕ)
      (parses : (n : ℕ) → uuid_parse (uuid_text n) ≡ some n) where
    -- An active admin with the phone number and the password.
    abbrev pub IsAccount : Text → Text → UserRow → Type 0
    IsAccount phone password u =
        (u.phone ≡ phone)
        × (is_admin u.role ≡ true)
        × (u.active ≡ true)
        × (verify_password bcrypt (hash_text u.password_hash) password ≡ true)

    -- The token opens the admin's pages to the user, at no plant.
    abbrev pub LetsIn : Text → UserRow → R → Type 0
    LetsIn token u r =
        (actor : Actor) × ((require_admin_session redis json uuid_text uuid_parse (some token) r).0
          ≡ Outcome.admitted actor)
        × (actor.user_id ≡ some u.id)
        × (actor.plant_id ≡ none)

    -- Where Redis answers and the parser of identifiers reads back what it wrote: a sign-in of an
    -- admin that gives a token has found an active admin with the phone number, trimmed, and the
    -- password; the token then lets that user in as an admin, at no plant, and nobody in on the
    -- owner's pages of any plant.
    pub admin_login-admitted :
        (plant : ℕ) (phone password ip token : Text) (s : Store) (r : R)
        → (admin_login redis json uuid_text bcrypt bytes now (some (phone, password)) ip s r).0
          ≡ Reply.signed_in token
        → let (_, _, r') =
            admin_login redis json uuid_text bcrypt bytes now (some (phone, password)) ip s r in
          (u : UserRow) × Mem u s.db.users
          × IsAccount (trim_space phone) password u
          × LetsIn token u r'
          × ((require_owner_session redis json uuid_text uuid_parse (some plant) (some token) r').0
              ≡ Outcome.turned_away true)
    unfolding admin_login verifies
    admin_login-admitted plant phone password ip token s r h =
        let limit =
          check_ip_rate_limit redis (codes "admin_login_rl:") ip login_rate_limit_max
            login_rate_limit_window r in
        let (u, r0, fits, made) =
          admin_within-SignedIn phone password token (is_allowed limit.0) s limit.1 h in
        let (number, admin) =
          &&-true (text_eq u.phone (trim_space phone)) (is_admin u.role) fits.0.1 in
        let (active, secret) = &&-true _ _ fits.1 in
        let d = admin_session redis json uuid_text bcrypt bytes now u in
        let (inside, outside) =
          created_admin_session redis server json uuid_text uuid_parse parses d u.id plant owner_ttl
            now bytes r0 token refl refl made.0 in
        rw made.1 (
          u,
          fits.0.0,
          ((text_eq_iff u.phone (trim_space phone)).0 number, admin, active, secret),
          inside,
          outside,
        )
