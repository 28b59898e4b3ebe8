-- ===== src/Terminal/Shift/Admitted.antt =====
-- cmd/server/terminal.go: from a PIN at the terminal to the requests that follow it.
use mathlib.Core.List.{Mem}
use gatstogo.Base.{
  ℕ, ℤ, ◌≡◌, refl, sym, ap, subst, ◌∙◌, true, ◌&&◌, Bool-cases, inl, inr, Option, none, some, List,
  [], Text, text_eq, trim_space, is_empty, arith, ◌==◌,
}
use gatstogo.Error.{Result, ok, err}
use gatstogo.Db.Schema.{UserRow, Role, is_staff}
use gatstogo.Db.Table.{find_where}
use gatstogo.Db.Table.Found.{find_where-Mem}
use gatstogo.Db.Table.Laws.{find_where_sound}
use gatstogo.Db.Statement.{Store}
use gatstogo.Tenant.{with_tenant}
use gatstogo.Redis.{Redis, Answers}
use gatstogo.Auth.{Bcrypt, role_text, verify_password}
use gatstogo.Shifts.PinLimiter as PinLimiter
use gatstogo.Session.{Data, Codec, staff_backstop_ttl, create}
use gatstogo.Session.Guards.{Actor, Outcome, require_staff_session}
use gatstogo.Session.Guards.Admission.{is_staff_role, &&-true}
use gatstogo.Session.Guards.Staff.{created_staff_session}
use gatstogo.SignIn.{hash_text}
use gatstogo.SignIn.Lookup.{with_tenant-optional}
use gatstogo.Terminal.{Reply}
use gatstogo.Terminal.Shift.{
  PinForm, SignedIn, Started, is_staff_row, find_staff, has_staff_pin, staff_session, signed_in,
  signed_in_reply, mint_session, start_shift, lacks_pump, with_staff, unless_locked, of_fields,
  terminal_pin,
}

is_staff_role_text : (role : Role) → is_staff role ≡ true → is_staff_role (role_text role) ≡ true
unfolding text_eq
is_staff_role_text Role.owner h = cc
is_staff_role_text Role.manager h = refl
is_staff_role_text Role.cashier h = refl
is_staff_role_text Role.operator h = refl
is_staff_role_text Role.admin h = cc

is_staff_row_sound :
    (plant user : ℕ) (u : UserRow)
    → is_staff_row plant user u ≡ true
    → (u.id ≡ user) × (u.plant_id ≡ plant) × (is_staff u.role ≡ true)
is_staff_row_sound plant user u h =
    let (both, role) = &&-true (u.id == user && u.plant_id == plant) (is_staff u.role) h in
    (ground arith, ground arith, role)

module _ {ℓ} {R : Type ℓ} (redis : Redis R) (json : Codec) (uuid_text : ℕ → Text) (bcrypt : Bcrypt)
    (bytes : Result (List ℕ)) (now shift_id : ℕ) where
  -- A session of the user in the shift was made, with this token and this Redis after it.
  abbrev Made : ℕ → UserRow → SignedIn → R → Type ℓ
  Made plant u a r' =
      (r : R) × (let made =
          create redis json
            (staff_session redis json uuid_text bcrypt bytes now shift_id plant u a.shift)
            staff_backstop_ttl bytes now r in
        (made.0 ≡ ok a.token) × (r' ≡ made.1))

  mint_session-Made :
      (plant : ℕ) (u : UserRow) (started : Result Started) (r : R) (a : SignedIn)
      → (mint_session redis json uuid_text bcrypt bytes now shift_id plant u started r).0
        ≡ Reply.json a
      → Made plant u a
          (mint_session redis json uuid_text bcrypt bytes now shift_id plant u started r).1
  unfolding mint_session
  mint_session-Made plant u (err e) r a h = cc
  mint_session-Made plant u (ok started) r a h = minted _ refl h
    where
      session : Data
      session = staff_session redis json uuid_text bcrypt bytes now shift_id plant u started.0

      minted :
          (answer : Result Text)
          → (create redis json session staff_backstop_ttl bytes now r).0 ≡ answer
          → signed_in_reply redis json uuid_text bcrypt bytes now shift_id started answer
            ≡ Reply.json a
          → Made plant u a (create redis json session staff_backstop_ttl bytes now r).1
      minted (ok token) made said =
          let same : signed_in redis json uuid_text bcrypt bytes now shift_id started token ≡ a =
            cc in
          subst (λ x. Made plant u x (create redis json session staff_backstop_ttl bytes now r).1)
            same (r, (made, refl))
      minted (err e) made said = cc

  -- The member of staff that the PIN found, with the session that was made.
  abbrev Found : ℕ → ℕ → Text → SignedIn → Store → R → Type ℓ
  Found plant user pin a s r' =
      (u : UserRow) × (find_where (is_staff_row plant user) s.db.users ≡ some u)
      × (has_staff_pin bcrypt pin u ≡ true)
      × Made plant u a r'

  with_staff-Found :
      (plant user : ℕ) (pin : Text) (opening : ℤ) (device : Text) (pump : Option ℕ)
      (found : Result (Option UserRow)) (s : Store) (r : R) (a : SignedIn)
      → (with_staff redis json uuid_text bcrypt bytes now shift_id plant user pin opening device
          pump found s r).0
        ≡ Reply.json a
      → (u : UserRow) × (found ≡ ok (some u))
        × (has_staff_pin bcrypt pin u ≡ true)
        × Made plant u a
            (with_staff redis json uuid_text bcrypt bytes now shift_id plant user pin opening device
              pump found s r).2
  unfolding with_staff start_shift
  with_staff-Found plant user pin opening device pump (err e) s r a h = cc
  with_staff-Found plant user pin opening device pump (ok none) s r a h = cc
  with_staff-Found plant user pin opening device pump (ok (some u)) s r a h =
      elim (Bool-cases (has_staff_pin bcrypt pin u)) [
        | inr bad ↦ let h' = rw bad at h in cc
        | inl good ↦
            elim (Bool-cases (lacks_pump redis json uuid_text bcrypt bytes now shift_id u pump)) [
              | inl lacking ↦ let h' = rw (good, lacking) at h in cc
              | inr fine ↦
                  let h' = rw (good, fine) at h in
                  rw (good, fine) (u, refl, good, mint_session-Made plant u _ _ a h')
            ]
      ]

  unless_locked-Found :
      (plant user : ℕ) (pin : Text) (opening : ℤ) (device : Text) (pump : Option ℕ)
      (locked : Result (Option ℕ)) (s : Store) (r : R) (a : SignedIn)
      → (unless_locked redis json uuid_text bcrypt bytes now shift_id plant user pin opening device
          pump locked s r).0
        ≡ Reply.json a
      → Found plant user pin a s
          (unless_locked redis json uuid_text bcrypt bytes now shift_id plant user pin opening
            device pump locked s r).2
  unfolding unless_locked find_staff
  unless_locked-Found plant user pin opening device pump (err e) s r a h = cc
  unless_locked-Found plant user pin opening device pump (ok (some wait)) s r a h = cc
  unless_locked-Found plant user pin opening device pump (ok none) s r a h =
      let lookup = with_tenant plant (find_staff plant user) s in
      let (u, there, good, made) =
        with_staff-Found plant user pin opening device pump lookup.0 lookup.1 r a h in
      (
        u,
        with_tenant-optional (λ db. find_where (is_staff_row plant user) db.users) u plant s there,
        good,
        made,
      )

  of_fields-Found :
      (plant : ℕ) (form : PinForm) (user : Option ℕ) (opening : Option ℤ) (pump : Option (Option ℕ))
      (s : Store) (r : R) (a : SignedIn)
      → (of_fields redis json uuid_text bcrypt bytes now shift_id plant form user opening pump s
          r).0
        ≡ Reply.json a
      → (id : ℕ) × (user ≡ some id)
        × Found plant id form.pin a s
            (of_fields redis json uuid_text bcrypt bytes now shift_id plant form user opening pump s
              r).2
  unfolding of_fields
  of_fields-Found plant form none opening pump s r a h = cc
  of_fields-Found plant form (some user) none pump s r a h = cc
  of_fields-Found plant form (some user) (some opening) none s r a h = cc
  of_fields-Found plant form (some user) (some opening) (some pump) s r a h =
      elim (Bool-cases (is_empty form.pin)) [
        | inl gap ↦ let h' = rw gap at h in cc
        | inr full ↦
            let h' = rw full at h in
            let lock = PinLimiter.locked redis (uuid_text user) r in
            rw full (
              user,
              refl,
              unless_locked-Found plant user form.pin opening (trim_space form.device_id) pump
                  lock.0 s lock.1 a h',
            )
      ]

  module _ (server : Answers redis) (uuid_parse : Text → Option ℕ)
      (parses : (n : ℕ) → uuid_parse (uuid_text n) ≡ some n) (blank : uuid_parse [] ≡ none) where
    -- An active member of the plant's staff, with the identifier and the PIN.
    abbrev pub IsMember : ℕ → Option ℕ → Text → UserRow → Type 0
    IsMember plant user pin u =
        (user ≡ some u.id)
        × (u.plant_id ≡ plant)
        × (is_staff u.role ≡ true)
        × (u.active ≡ true)
        × (verify_password bcrypt (hash_text u.pin_hash) pin ≡ true)

    -- The token opens the terminal to the user, under the user's role, in the shift and at its pump.
    abbrev pub LetsIn : ℕ → UserRow → SignedIn → R → Type 0
    LetsIn plant u a r =
        (actor : Actor) × ((require_staff_session redis json uuid_text uuid_parse (some plant)
            (some a.token) r).0
          ≡ Outcome.admitted actor)
        × (actor.user_id ≡ some u.id)
        × (actor.role ≡ role_text u.role)
        × (actor.shift_id ≡ some a.shift.id)
        × (actor.pump_id ≡ a.shift.pump_id)

    -- Where Redis answers, and the parser of identifiers reads back what it wrote and nothing from an
    -- empty text: a PIN that the terminal accepts is that of an active member of the plant's staff,
    -- the one whom the form names; and the session's token then opens the terminal to that user, under
    -- the user's role, in the shift that the reply tells and at the pump of that shift.
    pub terminal_pin-admitted :
        (plant : ℕ) (form : PinForm) (s : Store) (r : R) (a : SignedIn)
        → (terminal_pin redis json uuid_text bcrypt bytes now shift_id
            (some plant)
            (some form)
            s
            r).0
          ≡ Reply.json a
        → let (_, _, r') =
            terminal_pin redis json uuid_text bcrypt bytes now shift_id
              (some plant)
              (some form)
              s
              r in
          (u : UserRow) × Mem u s.db.users
          × IsMember plant form.user form.pin u
          × LetsIn plant u a r'
    unfolding terminal_pin has_staff_pin
    terminal_pin-admitted plant form s r a h =
        let (id, named, found) =
          of_fields-Found plant form form.user form.opening_cash_kobo form.pump s r a h in
        let (u, there, good, session) = found in
        let (r0, made) = session in
        let row = is_staff_row plant id in
        let (same, place, role) =
          is_staff_row_sound plant id u (find_where_sound row s.db.users u there) in
        let (active, secret) = &&-true _ _ good in
        let inside =
          created_staff_session redis server json uuid_text uuid_parse parses blank
            (staff_session redis json uuid_text bcrypt bytes now shift_id plant u a.shift) plant
            u.id a.shift.id staff_backstop_ttl now a.shift.pump_id bytes r0 a.token
            (is_staff_role_text u.role role) refl refl refl refl made.0 in
        rw made.1 (
          u,
          find_where-Mem row s.db.users u there,
          (named ∙ ap some (sym same), place, role, active, secret),
          inside,
        )
