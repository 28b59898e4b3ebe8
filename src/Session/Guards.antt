-- ===== src/Session/Guards.antt =====
-- internal/middleware/session.go: Actor, RequireOwnerSession, RequireAdminSession,
-- RequireStaffSession and RequireReceiptSession. The request comes as the plant that Tenant found and
-- the cookie; the text of an identifier and its parser are arguments.
pub mod Admission
pub mod Login
pub mod Staff
pub mod Receipts
use mathlib.Core.Option
use gatstogo.Base.{
  ℕ, Bool, true, false, not, ◌&&◌, ◌||◌, Option, none, some, [], ◌∷◌, Text, text_eq, codes,
  is_empty, if◌then◌else◌,
}
use gatstogo.Error.{Result, ok, err}
use gatstogo.Redis.{Redis}
use gatstogo.Session.{
  Data, Codec, role_owner, role_manager, role_cashier, role_operator, role_admin, role_customer,
  owner_ttl, staff_backstop_ttl, receipt_session_ttl, load, touch,
}

pub record Actor : Type 0 where
  pub user_id : Option ℕ
  pub name : Text
  pub role : Text
  pub plant_id : Option ℕ
  pub shift_id : Option ℕ
  pub pump_id : Option ℕ
  pub phone : Text
  pub token : Text
  pub can_edit_price : Bool
  pub can_manage_staff : Bool
  pub can_manage_pumps : Bool

-- The plant is not found; the visitor is turned away, with or without a cleared cookie; or the
-- request goes on as an actor, with a fresh cookie.
pub data Outcome : Type 0 where
  plant_missing : Outcome
  turned_away : Bool → Outcome
  admitted : Actor → Outcome

-- The text of a pump's identifier, empty without a pump.
abbrev pub pump_text : (ℕ → Text) → Option ℕ → Text
pump_text uuid_text none = []
pump_text uuid_text (some pump) = uuid_text pump

module _ {ℓ} {R : Type ℓ} (redis : Redis R) (json : Codec) (uuid_text : ℕ → Text)
    (uuid_parse : Text → Option ℕ) where
  -- A failed Touch is ignored.
  admit : ℕ → Text → Actor → R → Outcome × R
  unfolding touch
  admit ttl token actor r = (Outcome.admitted actor, (touch redis json token ttl r).1)

  owner_as : ℕ → Text → Data → Option ℕ → R → Outcome × R
  unfolding admit
  owner_as plant token d none r = (Outcome.turned_away true, r)
  owner_as plant token d (some user) r =
      admit owner_ttl token
        (record {
          user_id = some user;
          name = d.name;
          role = d.role;
          plant_id = some plant;
          shift_id = none;
          pump_id = none;
          phone = [];
          token = token;
          can_edit_price = d.can_edit_price;
          can_manage_staff = d.can_manage_staff;
          can_manage_pumps = d.can_manage_pumps;
        })
        r

  abbrev pub is_owner_of : ℕ → Data → Bool
  is_owner_of plant d =
      (text_eq d.role role_owner || text_eq d.role role_manager)
      && text_eq d.plant_id (uuid_text plant)

  owner_loaded : ℕ → Text → Result Data → R → Outcome × R
  unfolding owner_as text_eq
  owner_loaded plant token (err e) r = (Outcome.turned_away true, r)
  owner_loaded plant token (ok d) r =
      if is_owner_of plant d
      then owner_as plant token d (uuid_parse d.user_id) r
      else (Outcome.turned_away true, r)

  unfoldable pub require_owner_session : Option ℕ → Option Text → R → Outcome × R
  unfolding load owner_loaded
  require_owner_session none cookie r = (Outcome.plant_missing, r)
  require_owner_session (some plant) none r = (Outcome.turned_away false, r)
  require_owner_session (some plant) (some token) r =
      let (d, r') = load redis json token r in owner_loaded plant token d r'

  admin_as : Text → Data → Option ℕ → R → Outcome × R
  unfolding admit
  admin_as token d none r = (Outcome.turned_away true, r)
  admin_as token d (some user) r =
      admit owner_ttl token
        (record {
          user_id = some user;
          name = d.name;
          role = d.role;
          plant_id = none;
          shift_id = none;
          pump_id = none;
          phone = [];
          token = token;
          can_edit_price = false;
          can_manage_staff = false;
          can_manage_pumps = false;
        })
        r

  admin_loaded : Text → Result Data → R → Outcome × R
  unfolding admin_as text_eq
  admin_loaded token (err e) r = (Outcome.turned_away true, r)
  admin_loaded token (ok d) r =
      if text_eq d.role role_admin
      then admin_as token d (uuid_parse d.user_id) r
      else (Outcome.turned_away true, r)

  unfoldable pub require_admin_session : Option Text → R → Outcome × R
  unfolding load admin_loaded
  require_admin_session none r = (Outcome.turned_away false, r)
  require_admin_session (some token) r =
      let (d, r') = load redis json token r in admin_loaded token d r'

  staff_actor : ℕ → Text → Data → ℕ → ℕ → Option ℕ → Actor
  staff_actor plant token d user shift pump = record {
    user_id = some user;
    name = d.name;
    role = d.role;
    plant_id = some plant;
    shift_id = some shift;
    pump_id = pump;
    phone = [];
    token = token;
    can_edit_price = d.can_edit_price;
    can_manage_staff = d.can_manage_staff;
    can_manage_pumps = d.can_manage_pumps;
  }

  -- An empty pump is none; one that does not parse is refused.
  parsed_pump : Text → Option (Option ℕ)
  parsed_pump [] = some none
  parsed_pump (c ∷ s) = Option.map some (uuid_parse (c ∷ s))

  staff_as : ℕ → Text → Data → Option ℕ → Option ℕ → Option (Option ℕ) → R → Outcome × R
  unfolding admit staff_actor
  staff_as plant token d (some user) (some shift) (some pump) r =
      admit staff_backstop_ttl token (staff_actor plant token d user shift pump) r
  staff_as plant token d _ _ _ r = (Outcome.turned_away true, r)

  abbrev pub is_staff_of : ℕ → Data → Bool
  is_staff_of plant d =
      (text_eq d.role role_manager || text_eq d.role role_cashier || text_eq d.role role_operator)
      && text_eq d.plant_id (uuid_text plant)
      && not (is_empty d.shift_id)

  staff_loaded : ℕ → Text → Result Data → R → Outcome × R
  unfolding staff_as parsed_pump text_eq
  staff_loaded plant token (err e) r = (Outcome.turned_away true, r)
  staff_loaded plant token (ok d) r =
      if is_staff_of plant d
      then staff_as plant token d (uuid_parse d.user_id) (uuid_parse d.shift_id)
          (parsed_pump d.pump_id) r
      else (Outcome.turned_away true, r)

  unfoldable pub require_staff_session : Option ℕ → Option Text → R → Outcome × R
  unfolding load staff_loaded
  require_staff_session none cookie r = (Outcome.plant_missing, r)
  require_staff_session (some plant) none r = (Outcome.turned_away false, r)
  require_staff_session (some plant) (some token) r =
      let (d, r') = load redis json token r in staff_loaded plant token d r'

  customer_actor : ℕ → Text → Data → Actor
  customer_actor plant token d = record {
    user_id = none;
    name = [];
    role = d.role;
    plant_id = some plant;
    shift_id = none;
    pump_id = none;
    phone = d.phone;
    token = token;
    can_edit_price = false;
    can_manage_staff = false;
    can_manage_pumps = false;
  }

  abbrev pub is_customer_of : ℕ → Data → Bool
  is_customer_of plant d =
      text_eq d.role role_customer && text_eq d.plant_id (uuid_text plant) && not (is_empty d.phone)

  receipt_loaded : ℕ → Text → Result Data → R → Outcome × R
  unfolding admit customer_actor text_eq
  receipt_loaded plant token (err e) r = (Outcome.turned_away true, r)
  receipt_loaded plant token (ok d) r =
      if is_customer_of plant d
      then admit receipt_session_ttl token (customer_actor plant token d) r
      else (Outcome.turned_away true, r)

  unfoldable pub require_receipt_session : Option ℕ → Option Text → R → Outcome × R
  unfolding load receipt_loaded
  require_receipt_session none cookie r = (Outcome.plant_missing, r)
  require_receipt_session (some plant) none r = (Outcome.turned_away false, r)
  require_receipt_session (some plant) (some token) r =
      let (d, r') = load redis json token r in receipt_loaded plant token d r'
