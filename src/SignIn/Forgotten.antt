-- ===== src/SignIn/Forgotten.antt =====
-- cmd/server/auth.go: ownerForgotPasswordSubmitHandler and ownerResetPasswordSubmitHandler. A mail is
-- its address and the token in its link; a failed Send is only logged.
pub mod Silence
pub mod Reset
pub mod Accounts
use gatstogo.Base.{
  ℕ, ◌*◌, Bool, true, false, not, ◌&&◌, ◌||◌, Option, none, some, List, Text, text_eq, codes,
  trim_space, is_empty, ◌==◌, if◌then◌else◌,
}
use gatstogo.Error.{no_rows, Result, ok, err}
use gatstogo.Db.Schema.{Db, UserRow}
use gatstogo.Db.Table.{find_where, update_where, count_where}
use gatstogo.Db.Statement.{Store, M, pure, raise, query_row, exec, ◌>>=◌, ◌>>◌, attempt_then}
use gatstogo.Tenant.{with_tenant, log}
use gatstogo.Redis.{Redis}
use gatstogo.Auth.{Bcrypt, hash_password, is_allowed, check_ip_rate_limit}
use gatstogo.PasswordReset.{issue_token, consume}
use gatstogo.SignIn.{hash_text, is_owner_or_manager, optional}

abbrev forgot_password_rate_limit_max : ℕ
forgot_password_rate_limit_max = 5

abbrev forgot_password_rate_limit_window : ℕ
forgot_password_rate_limit_window = 15 * 60 * 1000000000

pub data ForgotReply : Type 0 where
  plant_missing unreadable too_many missing submitted : ForgotReply

-- WHERE plant_id = $1 AND phone = $2 AND role IN ('owner', 'manager') AND active.
abbrev is_active_login : ℕ → Text → UserRow → Bool
is_active_login plant phone u =
    u.plant_id == plant && text_eq u.phone phone && is_owner_or_manager u.role && u.active

unfoldable find_active_login : ℕ → Text → M (Option UserRow)
unfolding query_row find_where optional attempt_then
find_active_login plant phone =
    attempt_then (query_row (λ db. find_where (is_active_login plant phone) db.users)) optional

abbrev Mail : Type 0
Mail = Text × Text

abbrev mail_of : Text → Result Text → Option Mail
mail_of address (ok token) = some (address, token)
mail_of address (err e) = none

module _ {ℓ} {R : Type ℓ} (redis : Redis R) (uuid_text : ℕ → Text) (uuid_parse : Text → Option ℕ)
    (bytes : Result (List ℕ)) where
  send_link : UserRow → R → Option Mail × R
  unfolding issue_token trim_space
  send_link u r =
      if is_empty (trim_space (hash_text u.email))
      then (none, r)
      else (let (answer, r') = issue_token redis uuid_text uuid_parse u.id bytes r in
          (mail_of (trim_space (hash_text u.email)) answer, r'))

  after_lookup : Result (Option UserRow) → R → Option Mail × R
  unfolding send_link
  after_lookup (ok (some u)) r = send_link u r
  after_lookup (ok none) r = (none, r)
  after_lookup (err e) r = (none, r)

  for_phone : ℕ → Text → Store → R → ForgotReply × Option Mail × Store × R
  unfolding after_lookup find_active_login with_tenant
  for_phone plant phone s r =
      if is_empty phone
      then (ForgotReply.missing, none, s, r)
      else (let (account, s') = with_tenant plant (find_active_login plant phone) s in
          let (mail, r') = after_lookup account r in (ForgotReply.submitted, mail, s', r'))

  forgot_within : ℕ → Text → Bool → Store → R → ForgotReply × Option Mail × Store × R
  unfolding for_phone trim_space
  forgot_within plant phone false s r = (ForgotReply.too_many, none, s, r)
  forgot_within plant phone true s r = for_phone plant (trim_space phone) s r

  unfoldable pub forgot_password :
      Option ℕ → Option Text → Text → Store → R → ForgotReply × Option Mail × Store × R
  unfolding forgot_within check_ip_rate_limit
  forgot_password none form ip s r = (ForgotReply.plant_missing, none, s, r)
  forgot_password (some plant) none ip s r = (ForgotReply.unreadable, none, s, r)
  forgot_password (some plant) (some phone) ip s r =
      let (allowed, r') =
        check_ip_rate_limit redis (codes "forgot_password_rl:") ip forgot_password_rate_limit_max
          forgot_password_rate_limit_window r in
      forgot_within plant phone (is_allowed allowed) s r'

pub data ResetReply : Type 0 where
  plant_missing unreadable missing mismatch invalid_token failed done : ResetReply

pub record ResetForm : Type 0 where
  pub token : Text
  pub new_password : Text
  pub confirm : Text

-- WHERE id = $2 AND plant_id = $3 AND role IN ('owner', 'manager').
abbrev pub is_owner_row : ℕ → ℕ → UserRow → Bool
is_owner_row plant user u = u.id == user && u.plant_id == plant && is_owner_or_manager u.role

abbrev pub with_password : Text → UserRow → UserRow
with_password hash u = record u { password_hash = some hash }

unfoldable pub updated_one : ℕ → M (Unit {0})
unfolding pure raise
updated_one rows = if rows == 0 then raise no_rows else pure tt

-- The function that WithTenant runs.
unfoldable pub store_password : ℕ → ℕ → Text → M (Unit {0})
unfolding exec update_where count_where updated_one log ◌>>=◌
store_password plant user hash = do
  rows ← exec (λ _ db. (
    count_where (is_owner_row plant user) db.users,
    record db { users = update_where (is_owner_row plant user) (with_password hash) db.users },
  ))
  updated_one rows
  log (some plant) (some user) (codes "owner.password_reset") (codes "")

abbrev pub stored_reply : Result (Unit {0}) → ResetReply
stored_reply (ok u) = ResetReply.done
stored_reply (err e) = ResetReply.invalid_token

module _ {ℓ} {R : Type ℓ} (redis : Redis R) (uuid_text : ℕ → Text) (uuid_parse : Text → Option ℕ)
    (bcrypt : Bcrypt) where
  with_hash : ℕ → ℕ → Result Text → Store → ResetReply × Store
  unfolding store_password with_tenant
  with_hash plant user (err e) s = (ResetReply.failed, s)
  with_hash plant user (ok hash) s =
      let (answer, s') = with_tenant plant (store_password plant user hash) s in
      (stored_reply answer, s')

  for_user : ℕ → Text → Result ℕ → Store → ResetReply × Store
  unfolding with_hash hash_password
  for_user plant password (err e) s = (ResetReply.invalid_token, s)
  for_user plant password (ok user) s = with_hash plant user (hash_password bcrypt password) s

  with_token : ℕ → ResetForm → Store → R → ResetReply × Store × R
  unfolding for_user consume
  with_token plant form s r =
      let (user, r') = consume redis uuid_text uuid_parse form.token r in
      let (reply, s') = for_user plant form.new_password user s in (reply, s', r')

  unfoldable pub reset_password : Option ℕ → Option ResetForm → Store → R → ResetReply × Store × R
  unfolding with_token text_eq
  reset_password none form s r = (ResetReply.plant_missing, s, r)
  reset_password (some plant) none s r = (ResetReply.unreadable, s, r)
  reset_password (some plant) (some form) s r =
      if is_empty form.new_password || is_empty form.confirm
      then (ResetReply.missing, s, r)
      else if not (text_eq form.new_password form.confirm)
      then (ResetReply.mismatch, s, r)
      else with_token plant form s r
