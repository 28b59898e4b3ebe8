-- ===== src/Terminal/Managing/Permitted.antt =====
-- cmd/server/terminal.go: who may change pumps, staff and prices at the terminal.
use mathlib.Core.List.{Mem}
use gatstogo.Base.{
  ℕ, ◌≡◌, refl, ap, subst, Bool, true, false, ◌&&◌, Bool-cases, Option-cases, inl, inr, Option,
  none, some, Text, arith, ◌==◌,
}
use gatstogo.Error.{Result, ok, err}
use gatstogo.Db.Schema.{Db, UserRow, Role}
use gatstogo.Db.Table.{find_where}
use gatstogo.Db.Table.Found.{find_where-Mem}
use gatstogo.Db.Table.Laws.{find_where_sound}
use gatstogo.Db.Statement.{Store, M, query_row, ◌>>◌}
use gatstogo.Db.Statement.Takes.{ReadBy, query_row-ReadBy}
use gatstogo.Db.Statement.Returns.{>>=-eq-ok}
use gatstogo.Tenant.{with_tenant}
use gatstogo.Tenant.Returns.{with_tenant-Ran}
use gatstogo.Session.Guards.Admission.{&&-true}
use gatstogo.Terminal.{Actor, Reply}
use gatstogo.Terminal.Managing.{
  Permission, grants, is_manager, is_active_manager, permission_of, unless_forbidden,
  terminal_manager_can, manage_reply, permitted, as_manager, PumpForm, pump_of_form, pump_form,
  terminal_pump, staff_form, terminal_staff_status, price_form, terminal_set_price,
}

-- An active manager of the plant with the permission.
abbrev pub MayManage : ℕ → ℕ → Permission → Db → Type 0
MayManage plant user p db =
    (u : UserRow) × Mem u db.users
    × (u.id ≡ user)
    × (u.plant_id ≡ plant)
    × (is_manager u.role ≡ true)
    × (u.active ≡ true)
    × (grants p u ≡ true)

is_active_manager_sound :
    (plant user : ℕ) (u : UserRow)
    → is_active_manager plant user u ≡ true
    → (u.id ≡ user) × (u.plant_id ≡ plant) × (is_manager u.role ≡ true) × (u.active ≡ true)
is_active_manager_sound plant user u h =
    let (first, active) =
      &&-true (u.id == user && u.plant_id == plant && is_manager u.role) u.active h in
    let (both, role) = &&-true (u.id == user && u.plant_id == plant) (is_manager u.role) first in
    (ground arith, ground arith, role, active)

permission_of-MayManage :
    (plant user : ℕ) (p : Permission) (db : Db)
    → permission_of plant user p db ≡ some true
    → MayManage plant user p db
unfolding permission_of
permission_of-MayManage plant user p db h =
    elim (Option-cases (find_where (is_active_manager plant user) db.users)) [
      | inl nobody ↦ let h' = rw (nobody, permission_of) at h in cc
      | inr (u, found) ↦
          let h' = rw (found, permission_of) at h in
          let (a, b, c, d) =
            is_active_manager_sound plant user u
              (find_where_sound (is_active_manager plant user) db.users u found) in
          (u, find_where-Mem (is_active_manager plant user) db.users u found, a, b, c, d, cc)
    ]

read_permission :
    (plant user : ℕ) (p : Permission) (t : Store) (r : Result Bool) (t' : Store)
    → ReadBy (permission_of plant user p) t (r, t')
    → (unless_forbidden r t').0 ≡ ok tt
    → permission_of plant user p t.db ≡ some true
unfolding unless_forbidden
read_permission plant user p t (ok true) t' read h = read.1
read_permission plant user p t (ok false) t' read h = cc
read_permission plant user p t (err e) t' read h = ground arith

manage_reply-json {ℓ} :
    {A : Type ℓ} (r : Result A) (a : A) → manage_reply r ≡ Reply.json a → r ≡ ok a
manage_reply-json (ok b) a h = let e : b ≡ a = cc in ap ok e
manage_reply-json (err e) a h = ground arith

-- A change that was made was permitted by the tables as they were.
permitted-MayManage {ℓ} :
    {A : Type ℓ} (plant user : ℕ) (p : Permission) (change : M A) (s : Store) (a : A)
    → (permitted plant user p change s).0 ≡ ok (Reply.json a)
    → MayManage plant user p s.db
unfolding permitted terminal_manager_can
permitted-MayManage plant user p change s a h =
    let body = terminal_manager_can plant user p >> change in
    let replied : manage_reply (with_tenant plant body s).0 ≡ Reply.json a = cc in
    let (t, same, answer, tables) =
      with_tenant-Ran plant body a s (manage_reply-json (with_tenant plant body s).0 a replied) in
    let (u, may, rest, ends) =
      >>=-eq-ok (terminal_manager_can plant user p) (λ _. change) a t answer in
    let look = query_row (permission_of plant user p) t in
    subst (MayManage plant user p) same (
      permission_of-MayManage plant user p t.db (
        read_permission plant user p t look.0 look.1
          (query_row-ReadBy (permission_of plant user p) t) may))

abbrev is_json {ℓ} : {A : Type ℓ} → Result (Reply A) → Bool
is_json (ok (Reply.json a)) = true
is_json (ok (Reply.refused n)) = false
is_json (err e) = false

json_of {ℓ} :
    {A : Type ℓ} (r : Result (Reply A)) → is_json r ≡ true → (a : A) × (r ≡ ok (Reply.json a))
json_of (ok (Reply.json a)) h = (a, refl)
json_of (ok (Reply.refused n)) h = cc
json_of (err e) h = cc

as_manager-json {ℓ} :
    {A : Type ℓ} (role : Role) (m : M (Reply A)) (s : Store)
    → is_json (as_manager role m s).0 ≡ true
    → is_json (m s).0 ≡ true
unfolding as_manager
as_manager-json role m s h = elim (Bool-cases (is_manager role)) [
  | inl manager ↦ rw manager at h
  | inr other ↦ let h' = rw other at h in cc
]

-- A request to change something, with the identifiers that the database may give.
pub data Change : Type 0 where
  change_pump : Option PumpForm → ℕ → ℕ → Change
  change_member : Option (Option ℕ × Bool) → Change
  change_price : Option (Option ℕ) → ℕ → Change

abbrev pub wanted : Change → Permission
wanted (Change.change_pump form new_id default_id) = Permission.can_manage_pumps
wanted (Change.change_member form) = Permission.can_manage_staff
wanted (Change.change_price form id) = Permission.can_edit_price

module _ (uuid_text : ℕ → Text) (plant : ℕ) (s : Store) where
  pump_of_form-MayManage :
      (user new_id default_id : ℕ) (form : PumpForm) (pump : Option (Option ℕ))
      → is_json (pump_of_form uuid_text plant user new_id default_id form pump s).0 ≡ true
      → MayManage plant user Permission.can_manage_pumps s.db
  unfolding pump_of_form
  pump_of_form-MayManage user new_id default_id form none h = cc
  pump_of_form-MayManage user new_id default_id form (some pump) h =
      let (a, e) = json_of _ h in permitted-MayManage plant user Permission.can_manage_pumps _ s a e

  pump_form-MayManage :
      (user new_id default_id : ℕ) (form : Option PumpForm)
      → is_json (pump_form uuid_text plant user new_id default_id form s).0 ≡ true
      → MayManage plant user Permission.can_manage_pumps s.db
  unfolding pump_form
  pump_form-MayManage user new_id default_id none h = cc
  pump_form-MayManage user new_id default_id (some form) h =
      pump_of_form-MayManage user new_id default_id form form.pump h

  staff_form-MayManage :
      (user : ℕ) (form : Option (Option ℕ × Bool))
      → is_json (staff_form uuid_text plant user form s).0 ≡ true
      → MayManage plant user Permission.can_manage_staff s.db
  unfolding staff_form
  staff_form-MayManage user none h = cc
  staff_form-MayManage user (some (none, active)) h = cc
  staff_form-MayManage user (some (some member, active)) h = elim (Bool-cases (member == user)) [
    | inl self ↦ let h' = rw self at h in cc
    | inr other ↦
        let h' = rw other at h in
        let (a, e) = json_of _ h' in
        permitted-MayManage plant user Permission.can_manage_staff _ s a e
  ]

  price_form-MayManage :
      (user id : ℕ) (form : Option (Option ℕ))
      → is_json (price_form uuid_text plant user id form s).0 ≡ true
      → MayManage plant user Permission.can_edit_price s.db
  unfolding price_form
  price_form-MayManage user id none h = cc
  price_form-MayManage user id (some none) h = cc
  price_form-MayManage user id (some (some price)) h =
      let (a, e) = json_of _ h in permitted-MayManage plant user Permission.can_edit_price _ s a e

  -- Whether the terminal answered the request with 200.
  unfoldable pub accepted : Actor → Change → Bool
  unfolding terminal_pump terminal_staff_status terminal_set_price
  accepted actor (Change.change_pump form new_id default_id) =
      is_json (terminal_pump uuid_text (some (plant, actor)) form new_id default_id s).0
  accepted actor (Change.change_member form) =
      is_json (terminal_staff_status uuid_text (some (plant, actor)) form s).0
  accepted actor (Change.change_price form id) =
      is_json (terminal_set_price uuid_text (some (plant, actor)) form id s).0

  -- Whatever the session says, and whichever statements fail: the terminal accepts a change of a pump,
  -- of a member of staff or of a price only if the tables, before it, hold the actor as an active
  -- manager of the plant who has the permission for that kind of change.
  pub accepted-MayManage :
      (actor : Actor) (change : Change)
      → accepted actor change ≡ true
      → MayManage plant actor.user_id (wanted change) s.db
  unfolding accepted
  accepted-MayManage actor (Change.change_pump form new_id default_id) h =
      pump_form-MayManage actor.user_id new_id default_id form (as_manager-json actor.role _ s h)
  accepted-MayManage actor (Change.change_member form) h =
      staff_form-MayManage actor.user_id form (as_manager-json actor.role _ s h)
  accepted-MayManage actor (Change.change_price form id) h =
      price_form-MayManage actor.user_id id form (as_manager-json actor.role _ s h)
