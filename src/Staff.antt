-- ===== src/Staff.antt =====
-- internal/staff/staff.go: CreateParams, Create, pinAlreadyUsed, SetActive and validPIN. The bcrypt
-- functions behind internal/auth and the identifier that the database generates are arguments.
pub mod Pins
use gatstogo.Base.{
  ℕ, Bool, true, false, not, ◌&&◌, ◌||◌, Option, none, some, List, [], ◌∷◌, Text, text_eq, codes,
  trim_space, is_empty, is_digit, byte_len, ◌==◌, if◌then◌else◌,
}
use gatstogo.Error.{
  Error, unique_violation, missing_field, invalid_role, invalid_pin, pin_taken, phone_taken,
  staff_not_found, Result, ok, err,
}
use gatstogo.Db.Schema.{Db, UserRow, Role, is_staff}
use gatstogo.Db.Table.{update_where, count_where, select_where, exists_where}
use gatstogo.Db.Statement.{M, pure, raise, lift, statement, query, exec, ◌>>=◌, attempt_then}

pub record CreateParams : Type 0 where
  pub name : Text
  pub phone : Text
  pub role : Text
  pub pin : Text

-- The roles that Create accepts.
unfoldable pub staff_role : Text → Option Role
unfolding text_eq
staff_role role =
    if text_eq role (codes "manager")
    then some Role.manager
    else if text_eq role (codes "cashier")
    then some Role.cashier
    else if text_eq role (codes "operator")
    then some Role.operator
    else none

digits_only : Text → Bool
digits_only [] = true
digits_only (c ∷ s) = is_digit c && digits_only s

unfoldable pub valid_pin : Text → Bool
unfolding byte_len digits_only
valid_pin pin = if not (byte_len pin == 4) then false else digits_only pin

-- UNIQUE (plant_id, phone), and the primary key.
abbrev pub same_user_id : UserRow → UserRow → Bool
same_user_id x y = x.id == y.id

abbrev pub same_phone : UserRow → UserRow → Bool
same_phone x y = x.plant_id == y.plant_id && text_eq x.phone y.phone

unfoldable insert_user : UserRow → Db → Result (ℕ × Db)
unfolding exists_where
insert_user row db =
    if exists_where (same_user_id row) db.users || exists_where (same_phone row) db.users
    then err unique_violation
    else ok (row.id, record db { users = row ∷ db.users })

unfoldable phone_clash : Result ℕ → M ℕ
unfolding pure raise
phone_clash (ok id) = pure id
phone_clash (err Error.unique_violation) = raise phone_taken
phone_clash (err e) = raise e

module _ (hash_password : Text → Result Text) (verify_password : Text → Text → Bool) where
  -- A staff row whose hash the PIN fits.
  unfoldable pub has_pin : ℕ → Text → UserRow → Bool
  has_pin plant pin u =
      u.plant_id == plant
      && is_staff u.role
      && elim u.pin_hash [ none ↦ false | some h ↦ verify_password h pin ]

  -- The loop over the stored hashes.
  unfoldable pin_already_used : ℕ → Text → M Bool
  unfolding query exists_where has_pin
  pin_already_used plant pin = query (λ db. exists_where (has_pin plant pin) db.users)

  abbrev pub new_user : ℕ → Text → Text → Role → Text → ℕ → UserRow
  new_user plant name phone role hash id = record {
    id = id;
    plant_id = plant;
    name = name;
    phone = phone;
    email = none;
    role = role;
    password_hash = none;
    pin_hash = some hash;
    active = true;
    can_edit_price = false;
    can_manage_staff = false;
    can_manage_pumps = false;
  }

  insert_hashed : ℕ → Text → Text → Role → ℕ → Text → M ℕ
  unfolding statement insert_user phone_clash attempt_then
  insert_hashed plant name phone role id hash =
      attempt_then (statement (λ _. insert_user (new_user plant name phone role hash id)))
        phone_clash

  unless_taken : ℕ → Text → Text → Role → Text → ℕ → Bool → M ℕ
  unfolding insert_hashed lift raise ◌>>=◌
  unless_taken plant name phone role pin id taken =
      if taken
      then raise pin_taken
      else lift (hash_password pin) >>= insert_hashed plant name phone role id

  with_role : ℕ → Text → Text → Text → ℕ → Option Role → M ℕ
  unfolding pin_already_used unless_taken valid_pin raise ◌>>=◌
  with_role plant name phone pin id none = raise invalid_role
  with_role plant name phone pin id (some role) =
      if not (valid_pin pin)
      then raise invalid_pin
      else pin_already_used plant pin >>= unless_taken plant name phone role pin id

  unfoldable pub create : ℕ → CreateParams → ℕ → M ℕ
  unfolding with_role trim_space staff_role raise
  create plant p id =
      if is_empty (trim_space p.name)
        || is_empty (trim_space p.phone)
        || is_empty (trim_space p.pin)
      then raise missing_field
      else with_role plant (trim_space p.name) (trim_space p.phone) (trim_space p.pin) id
          (staff_role p.role)

unfoldable require_staff : ℕ → M (Unit {0})
unfolding pure raise
require_staff rows = if rows == 0 then raise staff_not_found else pure tt

-- WHERE id = $1 AND plant_id = $2 AND role IN ('manager', 'cashier', 'operator').
abbrev is_member : ℕ → ℕ → UserRow → Bool
is_member plant user u = u.id == user && u.plant_id == plant && is_staff u.role

unfoldable pub set_active : ℕ → ℕ → Bool → M (Unit {0})
unfolding exec update_where count_where require_staff ◌>>=◌
set_active plant user active = do
  rows ← exec (λ _ db. (
    count_where (is_member plant user) db.users,
    record db {
      users = update_where (is_member plant user) (λ u. record u { active = active }) db.users;
    },
  ))
  require_staff rows
