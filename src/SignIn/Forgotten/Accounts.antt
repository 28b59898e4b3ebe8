-- ===== src/SignIn/Forgotten/Accounts.antt =====
-- cmd/server/auth.go: whose password an UPDATE sets, row by row.
use mathlib.Core.List.{Mem, Forall₂}
use gatstogo.Base.{
  ℕ, ◌≡◌, ◌≢◌, ◌⊎◌, inl, inr, refl, true, ◌&&◌, some, List, [], Text, ap, subst, sym, arith, ◌==◌,
}
use gatstogo.Db.Schema.{Db, UserRow, Role}
use gatstogo.Db.Table.{update_where, count_where}
use gatstogo.Db.Table.Found.{update_where-Forall₂, count_where-Mem}
use gatstogo.Session.Guards.Admission.{&&-true}
use gatstogo.SignIn.{is_owner_or_manager}
use gatstogo.SignIn.Forgotten.{is_owner_row, with_password}

-- The account of an owner or a manager at the plant.
abbrev pub IsAccount : ℕ → ℕ → UserRow → Type 0
IsAccount plant user u =
    (u.id ≡ user) × (u.plant_id ≡ plant) × ((u.role ≡ Role.owner) ⊎ (u.role ≡ Role.manager))

owner_or_manager :
    (role : Role) → is_owner_or_manager role ≡ true → (role ≡ Role.owner) ⊎ (role ≡ Role.manager)
owner_or_manager Role.owner h = inl refl
owner_or_manager Role.manager h = inr refl
owner_or_manager Role.cashier h = cc
owner_or_manager Role.operator h = cc
owner_or_manager Role.admin h = cc

is_owner_row_sound :
    (plant user : ℕ) (u : UserRow) → is_owner_row plant user u ≡ true → IsAccount plant user u
is_owner_row_sound plant user u h =
    let (both, role) =
      &&-true (u.id == user && u.plant_id == plant) (is_owner_or_manager u.role) h in
    (ground arith, ground arith, owner_or_manager u.role role)

is_owner_row_complete :
    (plant user : ℕ) (u : UserRow) → IsAccount plant user u → is_owner_row plant user u ≡ true
is_owner_row_complete plant user u (same, place, inl role) = rw (same, place, role) ground arith
is_owner_row_complete plant user u (same, place, inr role) = rw (same, place, role) ground arith

-- The password of the account is set, and any other row is as it was.
abbrev SetsOnly : ℕ → ℕ → Text → UserRow → UserRow → Type 0
SetsOnly plant user hash u u' =
    (IsAccount plant user u × (u' ≡ record u { password_hash = some hash }))
    ⊎ ((¬ IsAccount plant user u) × (u' ≡ u))

update-SetsOnly :
    (plant user : ℕ) (hash : Text) (users : List UserRow)
    → Forall₂
        (SetsOnly plant user hash)
        users
        (update_where (is_owner_row plant user) (with_password hash) users)
update-SetsOnly plant user hash =
    update_where-Forall₂ (is_owner_row plant user) (with_password hash) (SetsOnly plant user hash)
      (λ u hit. inl (is_owner_row_sound plant user u hit, refl))
      (λ u miss.
        inr ((λ account. let hit = is_owner_row_complete plant user u account in cc), refl))

counted-IsAccount :
    (plant user : ℕ) (users : List UserRow)
    → count_where (is_owner_row plant user) users ≢ 0
    → (u : UserRow) × Mem u users × IsAccount plant user u
counted-IsAccount plant user users some_row =
    let (u, there, hit) = count_where-Mem (is_owner_row plant user) users some_row in
    (u, there, is_owner_row_sound plant user u hit)

-- There is an account, its password hash is set, and nothing else but the activity log may be
-- different.
abbrev pub AccountSet : ℕ → ℕ → Text → Db → Db → Type 0
AccountSet plant user hash before after =
    ((u : UserRow) × Mem u before.users × IsAccount plant user u)
    × Forall₂ (SetsOnly plant user hash) before.users after.users
    × (record after { users = []; activity_log = [] }
        ≡ record before { users = []; activity_log = [] })

pub updated-AccountSet :
    (plant user : ℕ) (hash : Text) (before after : Db)
    → count_where (is_owner_row plant user) before.users ≢ 0
    → record after { activity_log = [] } ≡ record before {
      users = update_where (is_owner_row plant user) (with_password hash) before.users;
      activity_log = [];
    }
    → AccountSet plant user hash before after
updated-AccountSet plant user hash before after some_row e =
    let users = ap (λ (db : Db). db.users) e in
    (
      counted-IsAccount plant user before.users some_row,
      subst (Forall₂ (SetsOnly plant user hash) before.users) (sym users)
          (update-SetsOnly plant user hash before.users),
      ap (λ (db : Db). record db { users = [] }) e,
    )
