-- ===== src/Examples/SignIn.antt =====
-- Owners and admins who sign in, and a reset password, with the theorems of cmd/server/auth.go.
use mathlib.Core.List.{Mem}
use gatstogo.Base.{
  ℕ, ◌≡◌, refl, true, false, none, some, List, [], ◌∷◌, Text, codes, text_eq, trim_space,
  text_eq_refl, arith,
}
use gatstogo.Error.{rand_failed, Result, ok, err}
use gatstogo.Db.Schema.{Db, UserRow, Role, empty_db}
use gatstogo.Db.Statement.{Store, connected}
use gatstogo.Redis.Memory.{Memory, empty_memory, memory}
use gatstogo.Redis.Memory.Laws.{memory_answers}
use gatstogo.Auth.{Bcrypt}
use gatstogo.Session.Guards.{Outcome, require_owner_session}
use gatstogo.PasswordReset.{issue_token, peek}
use gatstogo.SignIn.Owner.{Reply, owner_login}
use gatstogo.SignIn.Owner.Admitted.{owner_login-admitted, IsAccount, LetsIn, guard}
use gatstogo.SignIn.Admin.{admin_login}
use gatstogo.SignIn.Admin.Admitted as AdminAdmitted
use gatstogo.SignIn.Admin.Admitted.{admin_login-admitted}
use gatstogo.SignIn.Forgotten.{forgot_password, ResetReply, ResetForm, reset_password}
use gatstogo.SignIn.Forgotten.Silence.{forgot_password_silent}
use gatstogo.SignIn.Forgotten.Reset.{HashSet, reset_password-done, reset_password_again}
use gatstogo.Examples.Codec.{codec, uuid_text, uuid_parse, uuid_parse-uuid_text}

-- A hash is the text behind an h.
abbrev bcrypt : Bcrypt
bcrypt = record {
  generate = λ plain. ok (b'h' ∷ plain);
  compare = λ hash plain. text_eq hash (b'h' ∷ plain);
}

abbrev a_user : ℕ → Text → Role → Text → UserRow
a_user id phone role password = record {
  id = id;
  plant_id = 1;
  name = codes "Ada";
  phone = phone;
  email = some (codes "ada@example.com");
  role = role;
  password_hash = some (b'h' ∷ password);
  pin_hash = none;
  active = true;
  can_edit_price = true;
  can_manage_staff = false;
  can_manage_pumps = false;
}

abbrev a_db : Db
a_db = record empty_db {
  users =
      a_user 3 (codes "080") Role.owner (codes "gas")
      ∷ a_user 4 (codes "081") Role.admin (codes "kg")
      ∷ [];
}

abbrev pool : Store
pool = connected false none 100 a_db

abbrev bytes : Result (List ℕ)
bytes = ok (1 ∷ 2 ∷ 3 ∷ [])

abbrev a_token : Text
a_token = codes "AQID"

abbrev owner_signs_in : Reply × Store × Memory
owner_signs_in =
    owner_login memory codec uuid_text bcrypt bytes 100 (some 1) (some (codes " 080", codes "gas"))
      (codes "ip") pool empty_memory

owner_signed_in : owner_signs_in.0 ≡ Reply.signed_in a_token
unfolding owner_login memory codec text_eq
owner_signed_in = refl

owner_login-admitted_example :
    let r' = owner_signs_in.2 in
    (u : UserRow) × Mem u pool.db.users
    × IsAccount memory codec uuid_text bcrypt bytes 100 memory_answers uuid_parse
        uuid_parse-uuid_text 1
        (trim_space (codes " 080"))
        (codes "gas")
        u
    × LetsIn memory codec uuid_text bcrypt bytes 100 memory_answers uuid_parse uuid_parse-uuid_text
        1 a_token u r'
    × (guard memory codec uuid_text bcrypt bytes 100 memory_answers uuid_parse uuid_parse-uuid_text
          2 a_token r'
        ≡ Outcome.turned_away true)
owner_login-admitted_example =
    owner_login-admitted memory codec uuid_text bcrypt bytes 100 memory_answers uuid_parse
      uuid_parse-uuid_text 1 2 (codes " 080") (codes "gas") (codes "ip") a_token pool empty_memory
      (omega arith) owner_signed_in

abbrev admin_signs_in : Reply × Store × Memory
admin_signs_in =
    admin_login memory codec uuid_text bcrypt bytes 100 (some (codes "081", codes "kg"))
      (codes "ip") pool empty_memory

admin_signed_in : admin_signs_in.0 ≡ Reply.signed_in a_token
unfolding admin_login memory codec text_eq
admin_signed_in = refl

admin_login-admitted_example :
    let r' = admin_signs_in.2 in
    (u : UserRow) × Mem u pool.db.users
    × AdminAdmitted.IsAccount memory codec uuid_text bcrypt bytes 100 memory_answers uuid_parse
        uuid_parse-uuid_text
        (trim_space (codes "081"))
        (codes "kg")
        u
    × AdminAdmitted.LetsIn memory codec uuid_text bcrypt bytes 100 memory_answers uuid_parse
        uuid_parse-uuid_text a_token u r'
    × ((require_owner_session memory codec uuid_text uuid_parse (some 1) (some a_token) r').0
        ≡ Outcome.turned_away true)
admin_login-admitted_example =
    admin_login-admitted memory codec uuid_text bcrypt bytes 100 memory_answers uuid_parse
      uuid_parse-uuid_text 1 (codes "081") (codes "kg") (codes "ip") a_token pool empty_memory
      admin_signed_in

forgot_password_silent_example :
    (forgot_password memory uuid_text uuid_parse bytes
      (some 1)
      (some (codes "080"))
      (codes "ip")
      pool
      empty_memory).0
    ≡ (forgot_password memory uuid_text uuid_parse
        (err rand_failed)
        (some 1)
        (some (codes "080"))
        (codes "ip")
        (connected false none 100 empty_db)
        empty_memory).0
forgot_password_silent_example =
    forgot_password_silent memory uuid_text uuid_parse bytes (err rand_failed) (some 1)
      (some (codes "080")) (codes "ip") pool (connected false none 100 empty_db) empty_memory

abbrev link : Text
link = codes "010203"

-- The memory with a link for the owner.
abbrev linked : Memory
linked = (issue_token memory uuid_text uuid_parse 3 bytes empty_memory).1

abbrev a_form : ResetForm
a_form = record { token = link; new_password = codes "fire"; confirm = codes "fire" }

abbrev resets : ResetReply × Store × Memory
resets = reset_password memory uuid_text uuid_parse bcrypt (some 1) (some a_form) pool linked

reset_done : resets.0 ≡ ResetReply.done
unfolding reset_password memory issue_token text_eq
reset_done = refl

reset_password-done_example :
    (a_form.new_password ≡ a_form.confirm)
    × ((user : ℕ) × ((peek memory uuid_text uuid_parse link linked).0 ≡ ok user)
        × HashSet memory uuid_text uuid_parse bcrypt 1 (codes "fire") user a_db resets.1.db)
reset_password-done_example =
    reset_password-done memory uuid_text uuid_parse bcrypt memory_answers 1 a_form pool linked
      reset_done

passwords_agree : text_eq (codes "fire") (codes "fire") ≡ true
passwords_agree = text_eq_refl (codes "fire")

reset_password_again_example :
    ((reset_password memory uuid_text uuid_parse bcrypt (some 2) (some a_form) pool resets.2).0
      ≡ ResetReply.invalid_token)
    × ((reset_password memory uuid_text uuid_parse bcrypt (some 2) (some a_form) pool resets.2).1
        ≡ pool)
reset_password_again_example =
    reset_password_again memory uuid_text uuid_parse bcrypt memory_answers 1 2 a_form a_form pool
      pool linked refl refl passwords_agree refl passwords_agree
