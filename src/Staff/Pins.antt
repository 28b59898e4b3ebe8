-- ===== src/Staff/Pins.antt =====
-- internal/staff/staff.go: no two staff of a plant share a PIN.
use gatstogo.Base.{
  ℕ, ◌≡◌, refl, Bool, true, false, Option, some, List, [], ◌∷◌, Text, arith, trim_space, is_empty,
  ==_refl,
}
use gatstogo.Error.{pin_taken, Result, ok, err}
use gatstogo.Db.Schema.{Db, UserRow, Role, is_staff}
use gatstogo.Db.Table.{count_where, exists_where}
use gatstogo.Db.Statement.{connected}
use gatstogo.Staff.{
  CreateParams, staff_role, valid_pin, same_user_id, same_phone, has_pin, new_user, create,
}

-- A form that passes every test before the PIN is compared with those of the plant.
pub record Complete (p : CreateParams) (role : Role) : Type 0 where
  pub name : is_empty (trim_space p.name) ≡ false
  pub phone : is_empty (trim_space p.phone) ≡ false
  pub pin : valid_pin (trim_space p.pin) ≡ true
  pub role_name : staff_role p.role ≡ some role

role_is_staff : (text : Text) (role : Role) → staff_role text ≡ some role → is_staff role ≡ true
unfolding staff_role
role_is_staff text role h = ground arith

valid_not_empty : (pin : Text) → valid_pin pin ≡ true → is_empty pin ≡ false
unfolding valid_pin
valid_not_empty [] h = cc
valid_not_empty (c ∷ s) h = refl

module _ (hash_password : Text → Result Text) (verify_password : Text → Text → Bool) (plant : ℕ)
    (in_tx : Bool) (scope : Option ℕ) (now : ℕ) where
  abbrev fits : Text → UserRow → Bool
  fits = has_pin hash_password verify_password plant

  pin_refused :
      (p : CreateParams) (role : Role) (id : ℕ) (db : Db)
      → Complete p role
      → exists_where (fits (trim_space p.pin)) db.users ≡ true
      → create hash_password verify_password plant p id (connected in_tx scope now db)
        ≡ (err pin_taken, connected in_tx scope now db)
  unfolding create
  pin_refused p role id db c taken =
      let filled = valid_not_empty (trim_space p.pin) c.pin in
      simp (c.name, c.phone, c.pin, c.role_name, filled, taken) refl

  none_counted :
      (q : UserRow → Bool) (xs : List UserRow) → exists_where q xs ≡ false → count_where q xs ≡ 0
  unfolding exists_where count_where
  none_counted q [] h = refl
  none_counted q (x ∷ xs) h = ground (arith, none_counted q xs)

  module _ (p : CreateParams) (role : Role) (id : ℕ) (hash : Text) (db : Db) where
    abbrev row : UserRow
    row =
        new_user hash_password verify_password plant (trim_space p.name) (trim_space p.phone) role
          hash id

    abbrev with_user : Db
    with_user = record db { users = row ∷ db.users }

    created :
        Complete p role
        → exists_where (fits (trim_space p.pin)) db.users ≡ false
        → hash_password (trim_space p.pin) ≡ ok hash
        → exists_where (same_user_id row) db.users ≡ false
        → exists_where (same_phone row) db.users ≡ false
        → create hash_password verify_password plant p id (connected in_tx scope now db)
          ≡ (ok id, connected in_tx scope now with_user)
    unfolding create
    created c free hashed own_id own_phone =
        let filled = valid_not_empty (trim_space p.pin) c.pin in
        simp (c.name, c.phone, c.pin, c.role_name, filled, free, hashed, own_id, own_phone) refl

    row-fits :
        Complete p role
        → verify_password hash (trim_space p.pin) ≡ true
        → fits (trim_space p.pin) row ≡ true
    unfolding has_pin
    row-fits c verified = rw (==_refl plant, role_is_staff p.role role c.role_name, verified) refl

    -- A hash fits the text that it was made from. Then a complete form whose PIN no staff of the plant
    -- has, with an identifier and a phone that are free, creates a member, after which exactly one
    -- staff row of the plant fits the PIN, and any other complete form with that PIN is refused.
    pub create_pin_alone :
        (p' : CreateParams) (role' : Role) (id' : ℕ)
        → ((text h : Text) → hash_password text ≡ ok h → verify_password h text ≡ true)
        → Complete p role
        → exists_where (fits (trim_space p.pin)) db.users ≡ false
        → hash_password (trim_space p.pin) ≡ ok hash
        → exists_where (same_user_id row) db.users ≡ false
        → exists_where (same_phone row) db.users ≡ false
        → Complete p' role'
        → trim_space p'.pin ≡ trim_space p.pin
        → (create hash_password verify_password plant p id (connected in_tx scope now db)
            ≡ (ok id, connected in_tx scope now with_user))
          × (count_where (fits (trim_space p.pin)) with_user.users ≡ 1)
          × (create hash_password verify_password plant p' id' (connected in_tx scope now with_user)
              ≡ (err pin_taken, connected in_tx scope now with_user))
    unfolding count_where exists_where
    create_pin_alone p' role' id' law c free hashed own_id own_phone c' same =
        let fit = row-fits c (law (trim_space p.pin) hash hashed) in
        (
          created c free hashed own_id own_phone,
          rw fit (omega (arith, none_counted (fits (trim_space p.pin)) db.users free)),
          pin_refused p' role' id' with_user c' (rw (same, fit) refl),
        )
