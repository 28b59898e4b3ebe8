-- ===== src/SignIn/Admin.antt =====
-- cmd/server/auth.go: adminLoginSubmitHandler; adminLogoutHandler is SignIn.Owner's logout with the
-- admin's cookie. The Store is AdminDB, which no plant scopes.
pub mod Admitted
use gatstogo.Base.{
  ℕ, Bool, true, false, ◌&&◌, ◌||◌, Option, none, some, List, [], ◌∷◌, take, Text, text_eq, codes,
  trim_space, is_empty, if◌then◌else◌,
}
use gatstogo.Error.{Result, ok, err}
use gatstogo.Db.Schema.{UserRow, Role}
use gatstogo.Db.Table.{select_where}
use gatstogo.Db.Statement.{Store, M, query}
use gatstogo.Redis.{Redis}
use gatstogo.Auth.{Bcrypt, is_allowed, check_ip_rate_limit}
use gatstogo.Session.{Data, Codec, role_admin, owner_ttl, create}
use gatstogo.SignIn.{login_rate_limit_max, login_rate_limit_window, empty_session}
use gatstogo.SignIn.Owner.{Reply, verifies, login_reply}

abbrev pub is_admin : Role → Bool
is_admin Role.admin = true
is_admin _ = false

-- WHERE phone = $1 AND role = 'admin'.
abbrev pub is_admin_login : Text → UserRow → Bool
is_admin_login phone u = text_eq u.phone phone && is_admin u.role

-- LIMIT 5. Which five SQL leaves open; this takes the first.
unfoldable pub find_admins : Text → M (List UserRow)
unfolding query select_where
find_admins phone = query (λ db. take 5 (select_where (is_admin_login phone) db.users))

-- The loop over the rows: the first that is active and has the password.
unfoldable pub first_verified : Bcrypt → Text → List UserRow → Option UserRow
unfolding verifies
first_verified bcrypt password [] = none
first_verified bcrypt password (u ∷ rest) =
    let others = first_verified bcrypt password rest in
    if verifies bcrypt password u then some u else others

module _ {ℓ} {R : Type ℓ} (redis : Redis R) (json : Codec) (uuid_text : ℕ → Text) (bcrypt : Bcrypt)
    (bytes : Result (List ℕ)) (now : ℕ) where
  -- The plant stays empty.
  abbrev pub admin_session : UserRow → Data
  admin_session u = record empty_session {
    user_id = uuid_text u.id;
    role = role_admin;
    name = u.name;
  }

  as_admin : Option UserRow → R → Reply × R
  unfolding create
  as_admin none r = (Reply.incorrect, r)
  as_admin (some u) r =
      let (answer, r') = create redis json (admin_session u) owner_ttl bytes now r in
      (login_reply answer, r')

  with_admins : Text → Result (List UserRow) → R → Reply × R
  unfolding as_admin first_verified
  with_admins password (err e) r = (Reply.failed, r)
  with_admins password (ok rows) r = as_admin (first_verified bcrypt password rows) r

  admin_fields : Text → Text → Store → R → Reply × Store × R
  unfolding with_admins find_admins
  admin_fields phone password s r =
      if is_empty phone || is_empty password
      then (Reply.missing, s, r)
      else (let (rows, s') = find_admins phone s in
          let (reply, r') = with_admins password rows r in (reply, s', r'))

  admin_within : Text → Text → Bool → Store → R → Reply × Store × R
  unfolding admin_fields trim_space
  admin_within phone password false s r = (Reply.too_many, s, r)
  admin_within phone password true s r = admin_fields (trim_space phone) password s r

  unfoldable pub admin_login : Option (Text × Text) → Text → Store → R → Reply × Store × R
  unfolding admin_within check_ip_rate_limit
  admin_login none ip s r = (Reply.unreadable, s, r)
  admin_login (some (phone, password)) ip s r =
      let (allowed, r') =
        check_ip_rate_limit redis (codes "admin_login_rl:") ip login_rate_limit_max
          login_rate_limit_window r in
      admin_within phone password (is_allowed allowed) s r'
