-- ===== src/SignIn/Owner.antt =====
-- cmd/server/auth.go: ownerLoginSubmitHandler and ownerLogoutHandler. The request comes as the plant
-- that Tenant found, the form where it could be read, and the address of the visitor.
pub mod Admitted
use gatstogo.Base.{
  ℕ, Bool, true, false, not, ◌&&◌, ◌||◌, Option, none, some, List, Text, text_eq, codes, trim_space,
  is_empty, ◌==◌, if◌then◌else◌,
}
use gatstogo.Error.{Result, ok, err}
use gatstogo.Db.Schema.{UserRow}
use gatstogo.Db.Table.{find_where}
use gatstogo.Db.Statement.{Store, M, query_row, attempt_then}
use gatstogo.Tenant.{with_tenant}
use gatstogo.Redis.{Redis}
use gatstogo.Auth.{Bcrypt, verify_password, role_text, is_allowed, check_ip_rate_limit}
use gatstogo.Session.{Data, Codec, owner_ttl, create, delete}
use gatstogo.SignIn.{
  login_rate_limit_max, login_rate_limit_window, hash_text, is_owner_or_manager, optional,
  empty_session,
}

-- The page again with a message, or the redirect with the new cookie.
pub data Reply : Type 0 where
  plant_missing unreadable too_many missing failed incorrect : Reply
  signed_in : Text → Reply

-- WHERE plant_id = $1 AND phone = $2 AND role IN ('owner', 'manager').
abbrev pub is_login : ℕ → Text → UserRow → Bool
is_login plant phone u = u.plant_id == plant && text_eq u.phone phone && is_owner_or_manager u.role

unfoldable pub find_login : ℕ → Text → M (Option UserRow)
unfolding query_row find_where optional attempt_then
find_login plant phone =
    attempt_then (query_row (λ db. find_where (is_login plant phone) db.users)) optional

-- The account exists, is active, and has the password.
unfoldable pub verifies : Bcrypt → Text → UserRow → Bool
unfolding verify_password
verifies bcrypt password u = u.active && verify_password bcrypt (hash_text u.password_hash) password

abbrev pub login_reply : Result Text → Reply
login_reply (ok token) = Reply.signed_in token
login_reply (err e) = Reply.failed

module _ {ℓ} {R : Type ℓ} (redis : Redis R) (json : Codec) (uuid_text : ℕ → Text) (bcrypt : Bcrypt)
    (bytes : Result (List ℕ)) (now : ℕ) where
  abbrev pub owner_session : ℕ → UserRow → Data
  owner_session plant u = record empty_session {
    user_id = uuid_text u.id;
    role = role_text u.role;
    name = u.name;
    plant_id = uuid_text plant;
    can_edit_price = u.can_edit_price;
    can_manage_staff = u.can_manage_staff;
    can_manage_pumps = u.can_manage_pumps;
  }

  sign_in : ℕ → UserRow → R → Reply × R
  unfolding create
  sign_in plant u r =
      let (answer, r') = create redis json (owner_session plant u) owner_ttl bytes now r in
      (login_reply answer, r')

  with_account : ℕ → Text → Result (Option UserRow) → R → Reply × R
  unfolding sign_in verifies
  with_account plant password (err e) r = (Reply.failed, r)
  with_account plant password (ok none) r = (Reply.incorrect, r)
  with_account plant password (ok (some u)) r =
      if verifies bcrypt password u then sign_in plant u r else (Reply.incorrect, r)

  with_fields : ℕ → Text → Text → Store → R → Reply × Store × R
  unfolding with_account find_login with_tenant
  with_fields plant phone password s r =
      if is_empty phone || is_empty password
      then (Reply.missing, s, r)
      else (let (account, s') = with_tenant plant (find_login plant phone) s in
          let (reply, r') = with_account plant password account r in (reply, s', r'))

  within_limit : ℕ → Text → Text → Bool → Store → R → Reply × Store × R
  unfolding with_fields trim_space
  within_limit plant phone password false s r = (Reply.too_many, s, r)
  within_limit plant phone password true s r = with_fields plant (trim_space phone) password s r

  unfoldable pub owner_login :
      Option ℕ → Option (Text × Text) → Text → Store → R → Reply × Store × R
  unfolding within_limit check_ip_rate_limit
  owner_login none form ip s r = (Reply.plant_missing, s, r)
  owner_login (some plant) none ip s r = (Reply.unreadable, s, r)
  owner_login (some plant) (some (phone, password)) ip s r =
      let (allowed, r') =
        check_ip_rate_limit redis (codes "owner_login_rl:") ip login_rate_limit_max
          login_rate_limit_window r in
      within_limit plant phone password (is_allowed allowed) s r'

-- The cookie's token, if any; a failed Delete is ignored.
unfoldable pub logout {ℓ} : {R : Type ℓ} → Redis R → Codec → Option Text → R → R
unfolding delete
logout redis json none r = r
logout redis json (some token) r = (delete redis json token r).1
