-- ===== src/Terminal/Shift.antt =====
-- cmd/server/terminal.go: terminalPinHandler, which runs on the database and on Redis.
pub mod Ending
pub mod SignedOut
pub mod Admitted
use gatstogo.Base.{
  ℕ, ℤ, Bool, true, false, not, ◌&&◌, Option, none, some, List, [], Text, codes, trim_space,
  is_empty, ◌==◌, if◌then◌else◌,
}
use gatstogo.Error.{Result, ok, err}
use gatstogo.Db.Schema.{Db, UserRow, PumpRow, Role, is_staff}
use gatstogo.Db.Table.{find_where}
use gatstogo.Db.Statement.{Store, M, pure, query_row, ◌>>=◌, ◌>>◌, attempt_then}
use gatstogo.Tenant.{with_tenant, log}
use gatstogo.Redis.{Redis}
use gatstogo.Auth.{Bcrypt, role_text, verify_password}
use gatstogo.Pumps.Admin.{validate_shift_pump}
use gatstogo.Shifts.Lifecycle.{Shift, start_or_resume, close}
use gatstogo.Shifts.Cash.{summary}
use gatstogo.Shifts.PinLimiter as PinLimiter
use gatstogo.Session.{Data, Codec, staff_backstop_ttl, create, delete}
use gatstogo.Session.Guards.{pump_text}
use gatstogo.SignIn.{hash_text, optional, empty_session}
use gatstogo.Terminal.{Reply, is_operator}

-- The form: the user as uuid.Parse reads it, the PIN, the opening cash in kobo if it reads as a number
-- that is not negative, the device, and the pump, none for an empty one, or none where it does not
-- parse.
pub record PinForm : Type 0 where
  pub user : Option ℕ
  pub pin : Text
  pub opening_cash_kobo : Option ℤ
  pub device_id : Text
  pub pump : Option (Option ℕ)

-- Of the reply: the session's token, the shift with whether it was resumed, and its totals.
pub record SignedIn : Type 0 where
  pub token : Text
  pub shift : Shift
  pub resumed : Bool
  pub fills_completed : ℕ
  pub grams_dispensed : ℕ
  pub cash_held_kobo : ℤ

-- WHERE id = $1 AND plant_id = $2 AND role IN ('manager', 'cashier', 'operator').
abbrev pub is_staff_row : ℕ → ℕ → UserRow → Bool
is_staff_row plant user u = u.id == user && u.plant_id == plant && is_staff u.role

unfoldable pub find_staff : ℕ → ℕ → M (Option UserRow)
unfolding query_row find_where optional attempt_then
find_staff plant user =
    attempt_then (query_row (λ db. find_where (is_staff_row plant user) db.users)) optional

unfoldable pub has_staff_pin : Bcrypt → Text → UserRow → Bool
unfolding verify_password
has_staff_pin bcrypt pin u = u.active && verify_password bcrypt (hash_text u.pin_hash) pin

validate_requested : ℕ → ℕ → Option ℕ → M (Unit {0})
unfolding validate_shift_pump pure
validate_requested plant user none = pure tt
validate_requested plant user (some pump) = validate_shift_pump plant pump user

log_opened : ℕ → ℕ → Bool → M (Unit {0})
unfolding log pure
log_opened plant user true = pure tt
log_opened plant user false = log (some plant) (some user) (codes "shift.opened") (codes "")

-- SELECT name FROM pumps, for the reply alone; its error is dropped.
pump_name : ℕ → Option ℕ → M (Unit {0})
unfolding query_row find_where pure attempt_then
pump_name plant none = pure tt
pump_name plant (some pump) =
    attempt_then
      (query_row (λ db. find_where (λ (p : PumpRow). p.id == pump && p.plant_id == plant) db.pumps))
      (λ _. pure tt)

abbrev pub Started : Type 0
Started = Shift × Bool × (ℕ × ℕ × ℤ)

-- The function that WithTenant runs.
unfoldable start_in_tenant : ℕ → ℕ → ℤ → Text → Option ℕ → ℕ → M Started
unfolding validate_requested start_or_resume pump_name log_opened summary pure ◌>>=◌
start_in_tenant plant user opening device pump shift_id = do
  validate_requested plant user pump
  started ← start_or_resume plant user opening device pump shift_id
  pump_name plant started.0.pump_id
  log_opened plant user started.1
  totals ← summary plant started.0.id
  pure (started.0, started.1, totals)

module _ {ℓ} {R : Type ℓ} (redis : Redis R) (json : Codec) (uuid_text : ℕ → Text) (bcrypt : Bcrypt)
    (bytes : Result (List ℕ)) (now shift_id : ℕ) where
  abbrev pub staff_session : ℕ → UserRow → Shift → Data
  staff_session plant u shift = record empty_session {
    user_id = uuid_text u.id;
    role = role_text u.role;
    name = u.name;
    plant_id = uuid_text plant;
    shift_id = uuid_text shift.id;
    pump_id = pump_text uuid_text shift.pump_id;
    can_edit_price = u.can_edit_price;
    can_manage_staff = u.can_manage_staff;
    can_manage_pumps = u.can_manage_pumps;
  }

  abbrev pub signed_in : Started → Text → SignedIn
  signed_in (shift, resumed, totals) token = record {
    token = token;
    shift = shift;
    resumed = resumed;
    fills_completed = totals.0;
    grams_dispensed = totals.1;
    cash_held_kobo = totals.2;
  }

  abbrev pub signed_in_reply : Started → Result Text → Reply SignedIn
  signed_in_reply started (ok token) = Reply.json (signed_in started token)
  signed_in_reply started (err e) = Reply.refused 500

  mint_session : ℕ → UserRow → Result Started → R → Reply SignedIn × R
  unfolding create
  mint_session plant u (err e) r = (Reply.refused 500, r)
  mint_session plant u (ok started) r =
      let (answer, r') =
        create redis json (staff_session plant u started.0) staff_backstop_ttl bytes now r in
      (signed_in_reply started answer, r')

  start_shift : ℕ → UserRow → ℤ → Text → Option ℕ → Store → R → Reply SignedIn × Store × R
  unfolding with_tenant start_in_tenant mint_session
  start_shift plant u opening device pump s r =
      let (started, s') =
        with_tenant plant (start_in_tenant plant u.id opening device pump shift_id) s in
      let (reply, r') = mint_session plant u started r in (reply, s', r')

  lacks_pump : UserRow → Option ℕ → Bool
  lacks_pump u none = is_operator u.role
  lacks_pump u (some pump) = false

  -- The failures of RecordFailure and Reset are dropped.
  with_staff :
      ℕ
      → ℕ
      → Text
      → ℤ
      → Text
      → Option ℕ
      → Result (Option UserRow)
      → Store
      → R
      → Reply SignedIn × Store × R
  unfolding start_shift has_staff_pin lacks_pump PinLimiter.record_failure PinLimiter.reset
  with_staff plant user pin opening device pump (err e) s r = (Reply.refused 500, s, r)
  with_staff plant user pin opening device pump (ok none) s r = (Reply.refused 401, s, r)
  with_staff plant user pin opening device pump (ok (some u)) s r =
      if has_staff_pin bcrypt pin u
      then (let r' = (PinLimiter.reset redis (uuid_text user) r).1 in
          if lacks_pump u pump
          then (Reply.refused 400, s, r')
          else start_shift plant u opening device pump s r')
      else (Reply.refused 401, s, (PinLimiter.record_failure redis (uuid_text user) r).1)

  unless_locked :
      ℕ
      → ℕ
      → Text
      → ℤ
      → Text
      → Option ℕ
      → Result (Option ℕ)
      → Store
      → R
      → Reply SignedIn × Store × R
  unfolding with_staff find_staff with_tenant
  unless_locked plant user pin opening device pump (err e) s r = (Reply.refused 500, s, r)
  unless_locked plant user pin opening device pump (ok (some retry_after)) s r =
      (Reply.refused 429, s, r)
  unless_locked plant user pin opening device pump (ok none) s r =
      let (found, s') = with_tenant plant (find_staff plant user) s in
      with_staff plant user pin opening device pump found s' r

  of_fields :
      ℕ → PinForm → Option ℕ → Option ℤ → Option (Option ℕ) → Store → R → Reply SignedIn × Store × R
  unfolding unless_locked PinLimiter.locked trim_space
  of_fields plant form (some user) (some opening) (some pump) s r =
      if is_empty form.pin
      then (Reply.refused 400, s, r)
      else (let (locked, r') = PinLimiter.locked redis (uuid_text user) r in
          unless_locked plant user form.pin opening (trim_space form.device_id) pump locked s r')
  of_fields plant form _ _ _ s r = (Reply.refused 400, s, r)

  unfoldable pub terminal_pin : Option ℕ → Option PinForm → Store → R → Reply SignedIn × Store × R
  unfolding of_fields
  terminal_pin none form s r = (Reply.refused 404, s, r)
  terminal_pin (some plant) none s r = (Reply.refused 400, s, r)
  terminal_pin (some plant) (some form) s r =
      of_fields plant form form.user form.opening_cash_kobo form.pump s r
