-- ===== src/Terminal/Managing.antt =====
-- cmd/server/terminal.go: terminalManagerCan, terminalPumpHandler, terminalStaffStatusHandler,
-- listTerminalManageStaff and terminalSetPriceHandler.
pub mod Permitted
use gatstogo.Base.{
  ℕ, ℤ, pos, Bool, true, false, ◌&&◌, Option, none, some, List, map, Text, codes, trim_space, ltb,
  ◌==◌, if◌then◌else◌,
}
use gatstogo.Error.{Error, terminal_forbidden, no_rows, Result, ok, err}
use gatstogo.Db.Schema.{Db, UserRow, Role, is_staff}
use gatstogo.Db.Table.{find_where, select_where, order_by}
use gatstogo.Db.Statement.{M, pure, raise, query, query_row, ◌>>=◌, ◌>>◌, attempt_then}
use gatstogo.Tenant.{with_tenant, log}
use gatstogo.Pumps.Board.{Pump}
use gatstogo.Pumps.Board as Board
use gatstogo.Pumps.Admin.{upsert}
use gatstogo.Staff.{set_active}
use gatstogo.Shifts.StaffList.{name_le}
use gatstogo.Prices as Prices
use gatstogo.Terminal.{Actor, Reply}

-- The permissions that the handlers ask for; terminalManagerCan refuses any other.
pub data Permission : Type 0 where
  can_edit_price can_manage_staff can_manage_pumps : Permission

abbrev pub grants : Permission → UserRow → Bool
grants Permission.can_edit_price u = u.can_edit_price
grants Permission.can_manage_staff u = u.can_manage_staff
grants Permission.can_manage_pumps u = u.can_manage_pumps

abbrev pub is_manager : Role → Bool
is_manager Role.manager = true
is_manager _ = false

-- WHERE id = $1 AND plant_id = $2 AND role = 'manager' AND active = TRUE.
abbrev pub is_active_manager : ℕ → ℕ → UserRow → Bool
is_active_manager plant user u =
    u.id == user && u.plant_id == plant && is_manager u.role && u.active

-- The column of the manager's row.
unfoldable pub permission_of : ℕ → ℕ → Permission → Db → Option Bool
unfolding find_where
permission_of plant user p db = elim (find_where (is_active_manager plant user) db.users) [
  | none ↦ none
  | some u ↦ some (grants p u)
]

unfoldable pub unless_forbidden : Result Bool → M (Unit {0})
unfolding pure raise
unless_forbidden (ok true) = pure tt
unless_forbidden (ok false) = raise terminal_forbidden
unless_forbidden (err Error.no_rows) = raise terminal_forbidden
unless_forbidden (err e) = raise e

unfoldable pub terminal_manager_can : ℕ → ℕ → Permission → M (Unit {0})
unfolding query_row permission_of unless_forbidden attempt_then
terminal_manager_can plant user p =
    attempt_then (query_row (permission_of plant user p)) unless_forbidden

abbrev pub manage_reply {ℓ} : {A : Type ℓ} → Result A → Reply A
manage_reply (ok a) = Reply.json a
manage_reply (err Error.terminal_forbidden) = Reply.refused 403
manage_reply (err e) = Reply.refused 500

-- WithTenant around a change that wants a permission.
unfoldable pub permitted {ℓ} : {A : Type ℓ} → ℕ → ℕ → Permission → M A → M (Reply A)
unfolding with_tenant terminal_manager_can pure attempt_then ◌>>=◌
permitted plant user p change =
    attempt_then (with_tenant plant (terminal_manager_can plant user p >> change))
      (λ r. pure (manage_reply r))

-- The session's role is tested before the form is read.
unfoldable pub as_manager {ℓ} : {A : Type ℓ} → Role → M (Reply A) → M (Reply A)
unfolding pure
as_manager role m = if is_manager role then m else pure (Reply.refused 403)

-- The pump's identifier, none for an empty one, or none where it does not parse; the rest trimmed,
-- with 0 for an order that is no number.
pub record PumpForm : Type 0 where
  pub pump : Option (Option ℕ)
  pub name : Text
  pub status : Text
  pub sort_order : ℤ

-- terminalManageStaff.
pub record ManagedStaff : Type 0 where
  pub id : ℕ
  pub name : Text
  pub role : Role
  pub active : Bool

abbrev managed : UserRow → ManagedStaff
managed u = record { id = u.id; name = u.name; role = u.role; active = u.active }

module _ (uuid_text : ℕ → Text) where
  unfoldable save_pump : ℕ → ℕ → Option ℕ → PumpForm → ℕ → ℕ → M (List Pump)
  unfolding upsert log Board.list trim_space ◌>>=◌
  save_pump plant user pump form new_id default_id = do
    saved ← upsert plant pump (trim_space form.name) (trim_space form.status) form.sort_order new_id
    log (some plant) (some user) (codes "pump.updated") (uuid_text saved)
    Board.list plant default_id

  pump_of_form : ℕ → ℕ → ℕ → ℕ → PumpForm → Option (Option ℕ) → M (Reply (List Pump))
  unfolding permitted save_pump pure
  pump_of_form plant user new_id default_id form none = pure (Reply.refused 400)
  pump_of_form plant user new_id default_id form (some pump) =
      permitted plant user Permission.can_manage_pumps
        (save_pump plant user pump form new_id default_id)

  pump_form : ℕ → ℕ → ℕ → ℕ → Option PumpForm → M (Reply (List Pump))
  unfolding pump_of_form pure
  pump_form plant user new_id default_id none = pure (Reply.refused 400)
  pump_form plant user new_id default_id (some form) =
      pump_of_form plant user new_id default_id form form.pump

  unfoldable pub terminal_pump :
      Option (ℕ × Actor) → Option PumpForm → ℕ → ℕ → M (Reply (List Pump))
  unfolding as_manager pump_form pure
  terminal_pump none form new_id default_id = pure (Reply.refused 401)
  terminal_pump (some (plant, actor)) form new_id default_id =
      as_manager actor.role (pump_form plant actor.user_id new_id default_id form)

  -- CASE role WHEN 'manager' THEN 1 WHEN 'cashier' THEN 2 ELSE 3 END.
  abbrev role_rank : Role → ℕ
  role_rank Role.manager = 1
  role_rank Role.cashier = 2
  role_rank _ = 3

  unfoldable pub listed_before : UserRow → UserRow → Bool
  unfolding name_le
  listed_before x y =
      if ltb (role_rank x.role) (role_rank y.role)
      then true
      else if ltb (role_rank y.role) (role_rank x.role)
      then false
      else name_le x.name y.name

  unfoldable list_terminal_manage_staff : ℕ → M (List ManagedStaff)
  unfolding query order_by select_where listed_before
  list_terminal_manage_staff plant = query λ db.
      map managed (
        order_by listed_before
          (select_where (λ u. u.plant_id == plant && is_staff u.role) db.users))

  abbrev staff_action : Bool → Text
  staff_action true = codes "staff.activated"
  staff_action false = codes "staff.deactivated"

  unfoldable change_staff : ℕ → ℕ → ℕ → Bool → M (List ManagedStaff)
  unfolding set_active log list_terminal_manage_staff ◌>>=◌
  change_staff plant user member active = do
    set_active plant member active
    log (some plant) (some user) (staff_action active) (uuid_text member)
    list_terminal_manage_staff plant

  staff_form : ℕ → ℕ → Option (Option ℕ × Bool) → M (Reply (List ManagedStaff))
  unfolding permitted change_staff pure
  staff_form plant user none = pure (Reply.refused 400)
  staff_form plant user (some (none, active)) = pure (Reply.refused 400)
  staff_form plant user (some (some member, active)) =
      if member == user
      then pure (Reply.refused 400)
      else permitted plant user Permission.can_manage_staff (change_staff plant user member active)

  -- The form: the user as uuid.Parse reads it, and whether active is "true".
  unfoldable pub terminal_staff_status :
      Option (ℕ × Actor) → Option (Option ℕ × Bool) → M (Reply (List ManagedStaff))
  unfolding as_manager staff_form pure
  terminal_staff_status none form = pure (Reply.refused 401)
  terminal_staff_status (some (plant, actor)) form =
      as_manager actor.role (staff_form plant actor.user_id form)

  unfoldable save_price : ℕ → ℕ → ℕ → ℕ → M (Unit {0})
  unfolding Prices.set log ◌>>=◌
  save_price plant user price id = do
    saved ← Prices.set plant (pos price) user id
    log (some plant) (some user) (codes "price.set") (uuid_text saved)

  price_form : ℕ → ℕ → ℕ → Option (Option ℕ) → M (Reply (Unit {0}))
  unfolding permitted save_price pure
  price_form plant user id none = pure (Reply.refused 400)
  price_form plant user id (some none) = pure (Reply.refused 400)
  price_form plant user id (some (some price)) =
      permitted plant user Permission.can_edit_price (save_price plant user price id)

  -- The form: the price in kobo, if it reads as a positive number.
  unfoldable pub terminal_set_price :
      Option (ℕ × Actor) → Option (Option ℕ) → ℕ → M (Reply (Unit {0}))
  unfolding as_manager price_form pure
  terminal_set_price none form id = pure (Reply.refused 401)
  terminal_set_price (some (plant, actor)) form id =
      as_manager actor.role (price_form plant actor.user_id id form)
