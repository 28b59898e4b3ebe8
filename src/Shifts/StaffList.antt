-- ===== src/Shifts/StaffList.antt =====
-- internal/shifts/shifts.go: StaffMember and ListStaff.
use gatstogo.Base.{ℕ, Bool, true, false, ◌&&◌, List, [], ◌∷◌, map, Text, ltb, ◌==◌, if◌then◌else◌}
use gatstogo.Db.Schema.{UserRow, Role, is_staff}
use gatstogo.Db.Table.{select_where, order_by}
use gatstogo.Db.Statement.{M, query}

pub record StaffMember : Type 0 where
  pub id : ℕ
  pub name : Text
  pub role : Role

-- Whether a name stands no later under ORDER BY name, code point by code point.
unfoldable pub name_le : Text → Text → Bool
name_le [] t = true
name_le (x ∷ s) [] = false
name_le (x ∷ s) (y ∷ t) = if ltb x y then true else if ltb y x then false else name_le s t

abbrev staff_member_of : UserRow → StaffMember
staff_member_of u = record { id = u.id; name = u.name; role = u.role }

unfoldable list_staff : ℕ → M (List StaffMember)
unfolding query name_le order_by select_where
list_staff plant = query λ db. map staff_member_of (
    order_by (λ x y. name_le x.name y.name)
      (select_where (λ u. u.plant_id == plant && u.active && is_staff u.role) db.users))
