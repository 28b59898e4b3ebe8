-- ===== src/SignIn/Owner/Admitted.antt =====
-- cmd/server/auth.go: from a sign-in on a plant's pages to the requests that follow it.
use mathlib.Core.List.{Mem}
use gatstogo.Base.{
  ℕ, ◌≡◌, ◌≢◌, refl, ap, Bool, true, false, ◌&&◌, ◌||◌, Bool-cases, inl, inr, Option, none, some,
  List, Text, text_eq, text_eq_iff, codes, trim_space, is_empty, ◌==◌, arith,
}
use gatstogo.Error.{Result, ok, err}
use gatstogo.Db.Schema.{UserRow, Role}
use gatstogo.Db.Table.{find_where}
use gatstogo.Db.Table.Found.{find_where-Mem}
use gatstogo.Db.Table.Laws.{find_where_sound}
use gatstogo.Db.Statement.{Store}
use gatstogo.Tenant.{with_tenant}
use gatstogo.Redis.{Redis, Answers}
use gatstogo.Auth.{Bcrypt, verify_password, role_text, is_allowed, check_ip_rate_limit}
use gatstogo.Session.{Codec, owner_ttl, create}
use gatstogo.Session.Guards.{Actor, Outcome, require_owner_session}
use gatstogo.Session.Guards.Admission.{is_owner_role, &&-true}
use gatstogo.Session.Guards.Login.{created_owner_session}
use gatstogo.SignIn.Lookup.{with_tenant-optional}
use gatstogo.SignIn.{hash_text, is_owner_or_manager, login_rate_limit_max, login_rate_limit_window}
use gatstogo.SignIn.Owner.{
  Reply, is_login, find_login, verifies, login_reply, owner_session, sign_in, with_account,
  with_fields, within_limit, owner_login,
}

is_owner_role_text :
    (role : Role) → is_owner_or_manager role ≡ true → is_owner_role (role_text role) ≡ true
unfolding text_eq
is_owner_role_text Role.owner h = refl
is_owner_role_text Role.manager h = refl
is_owner_role_text Role.cashier h = cc
is_owner_role_text Role.operator h = cc
is_owner_role_text Role.admin h = cc

-- What the query's test says of a row.
is_login_sound :
    (plant : ℕ) (phone : Text) (u : UserRow)
    → is_login plant phone u ≡ true
    → (u.plant_id ≡ plant) × (u.phone ≡ phone) × (is_owner_or_manager u.role ≡ true)
is_login_sound plant phone u h =
    let place = u.plant_id == plant in
    let number = text_eq u.phone phone in
    let (both, role) = &&-true (place && number) (is_owner_or_manager u.role) h in
    let (here, same) = &&-true place number both in
    (ground arith, (text_eq_iff u.phone phone).0 same, role)

pub login_reply-eq :
    (answer : Result Text) (token : Text)
    → login_reply answer ≡ Reply.signed_in token
    → answer ≡ ok token
login_reply-eq (ok t) token h = let e : t ≡ token = cc in ap ok e
login_reply-eq (err e) token h = cc

module _ {ℓ} {R : Type ℓ} (redis : Redis R) (json : Codec) (uuid_text : ℕ → Text) (bcrypt : Bcrypt)
    (bytes : Result (List ℕ)) (now : ℕ) where
  -- A session of the user was made, with this token and this Redis after it.
  abbrev Made : ℕ → UserRow → Text → R → R → Type ℓ
  Made plant u token r r' =
      let made =
        create redis json (owner_session redis json uuid_text bcrypt bytes now plant u) owner_ttl
          bytes now r in
      (made.0 ≡ ok token) × (r' ≡ made.1)

  with_account-Made :
      (plant : ℕ) (password : Text) (account : Result (Option UserRow)) (r : R) (token : Text)
      → (with_account redis json uuid_text bcrypt bytes now plant password account r).0
        ≡ Reply.signed_in token
      → (u : UserRow) × (account ≡ ok (some u))
        × (verifies bcrypt password u ≡ true)
        × Made plant u token r
            (with_account redis json uuid_text bcrypt bytes now plant password account r).1
  unfolding with_account sign_in
  with_account-Made plant password (err e) r token h = cc
  with_account-Made plant password (ok none) r token h = cc
  with_account-Made plant password (ok (some u)) r token h =
      elim (Bool-cases (verifies bcrypt password u)) [
        | inl good ↦
            let h' = rw good at h in rw good (u, refl, good, (login_reply-eq _ token h', refl))
        | inr bad ↦ let h' = rw bad at h in cc
      ]

  -- The account that the sign-in found, with the redis that it began from.
  abbrev SignedIn : ℕ → Text → Text → Text → Store → R → Type ℓ
  SignedIn plant phone password token s r' =
      (u : UserRow) × (r : R) × (find_where (is_login plant phone) s.db.users ≡ some u)
      × (verifies bcrypt password u ≡ true)
      × Made plant u token r r'

  with_fields-SignedIn :
      (plant : ℕ) (phone password token : Text) (s : Store) (r : R)
      → (with_fields redis json uuid_text bcrypt bytes now plant phone password s r).0
        ≡ Reply.signed_in token
      → SignedIn plant phone password token s
          (with_fields redis json uuid_text bcrypt bytes now plant phone password s r).2
  unfolding with_fields find_login
  with_fields-SignedIn plant phone password token s r h =
      elim (Bool-cases (is_empty phone || is_empty password)) [
        | inl gap ↦ let h' = rw gap at h in cc
        | inr full ↦
            let h' = rw full at h in
            let (u, there, good, made) =
              with_account-Made plant password (with_tenant plant (find_login plant phone) s).0 r
                token h' in
            rw full (
              u,
              r,
              with_tenant-optional (λ db. find_where (is_login plant phone) db.users) u plant s
                  there,
              good,
              made,
            )
      ]

  within_limit-SignedIn :
      (plant : ℕ) (phone password token : Text) (allowed : Bool) (s : Store) (r : R)
      → (within_limit redis json uuid_text bcrypt bytes now plant phone password allowed s r).0
        ≡ Reply.signed_in token
      → SignedIn plant
          (trim_space phone)
          password
          token
          s
          (within_limit redis json uuid_text bcrypt bytes now plant phone password allowed s r).2
  unfolding within_limit
  within_limit-SignedIn plant phone password token false s r h = cc
  within_limit-SignedIn plant phone password token true s r h =
      with_fields-SignedIn plant (trim_space phone) password token s r h

  module _ (server : Answers redis) (uuid_parse : Text → Option ℕ)
      (parses : (n : ℕ) → uuid_parse (uuid_text n) ≡ some n) where
    abbrev pub guard : ℕ → Text → R → Outcome
    guard plant token r =
        (require_owner_session redis json uuid_text uuid_parse (some plant) (some token) r).0

    -- An active owner or manager of the plant, with the phone number and the password.
    abbrev pub IsAccount : ℕ → Text → Text → UserRow → Type 0
    IsAccount plant phone password u =
        (u.plant_id ≡ plant)
        × (u.phone ≡ phone)
        × (is_owner_or_manager u.role ≡ true)
        × (u.active ≡ true)
        × (verify_password bcrypt (hash_text u.password_hash) password ≡ true)

    -- The token opens the plant's pages to the user, under the user's role.
    abbrev pub LetsIn : ℕ → Text → UserRow → R → Type 0
    LetsIn plant token u r =
        (actor : Actor) × (guard plant token r ≡ Outcome.admitted actor)
        × (actor.user_id ≡ some u.id)
        × (actor.role ≡ role_text u.role)
        × (actor.plant_id ≡ some plant)

    -- Where Redis answers and the parser of identifiers reads back what it wrote: a sign-in on a
    -- plant's pages that gives a token has found an active owner or manager of that plant with the
    -- phone number, trimmed, and the password; the token then lets that user in at the plant, under
    -- the user's role, and at any other plant it lets nobody in.
    pub owner_login-admitted :
        (plant other : ℕ) (phone password ip token : Text) (s : Store) (r : R)
        → other ≢ plant
        → (owner_login redis json uuid_text bcrypt bytes now
            (some plant)
            (some (phone, password))
            ip
            s
            r).0
          ≡ Reply.signed_in token
        → let (_, _, r') =
            owner_login redis json uuid_text bcrypt bytes now
              (some plant)
              (some (phone, password))
              ip
              s
              r in
          (u : UserRow) × Mem u s.db.users
          × IsAccount plant (trim_space phone) password u
          × LetsIn plant token u r'
          × (guard other token r' ≡ Outcome.turned_away true)
    unfolding owner_login verifies
    owner_login-admitted plant other phone password ip token s r away h =
        let limit =
          check_ip_rate_limit redis (codes "owner_login_rl:") ip login_rate_limit_max
            login_rate_limit_window r in
        let (u, r0, there, good, made) =
          within_limit-SignedIn plant phone password token (is_allowed limit.0) s limit.1 h in
        let login = is_login plant (trim_space phone) in
        let fits =
          is_login_sound plant (trim_space phone) u (find_where_sound login s.db.users u there) in
        let (active, secret) = &&-true _ _ good in
        let (inside, outside) =
          created_owner_session redis server json uuid_text uuid_parse parses
            (owner_session redis json uuid_text bcrypt bytes now plant u) plant u.id other owner_ttl
            now bytes r0 token (is_owner_role_text u.role fits.2) refl refl away made.0 in
        rw made.1 (
          u,
          find_where-Mem login s.db.users u there,
          (fits.0, fits.1, fits.2, active, secret),
          inside,
          outside,
        )
