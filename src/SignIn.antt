-- ===== src/SignIn.antt =====
-- cmd/server/auth.go: the sign-in handlers, one module each. This one has what they share: the limits
-- on attempts from one address and the session of a user.
pub mod Owner
pub mod Forgotten
pub mod Admin
pub mod Lookup
use gatstogo.Base.{ℕ, ◌*◌, Bool, false, Option, none, some, [], Text}
use gatstogo.Error.{Error, no_rows, Result, ok, err}
use gatstogo.Db.Schema.{UserRow, Role}
use gatstogo.Db.Statement.{M, pure, raise}
use gatstogo.Auth.{role_text}
use gatstogo.Session.{Data}

abbrev pub login_rate_limit_max : ℕ
login_rate_limit_max = 10

abbrev pub login_rate_limit_window : ℕ
login_rate_limit_window = 15 * 60 * 1000000000

-- passwordHash, where NULL is read as the empty text.
abbrev pub hash_text : Option Text → Text
hash_text none = []
hash_text (some hash) = hash

-- role IN ('owner', 'manager').
abbrev pub is_owner_or_manager : Role → Bool
is_owner_or_manager Role.owner = Bool.true
is_owner_or_manager Role.manager = Bool.true
is_owner_or_manager _ = false

-- switch scanErr: a row, no row, or a failure.
unfoldable pub optional {ℓ} : {A : Type ℓ} → Result A → M (Option A)
unfolding pure raise
optional (ok a) = pure (some a)
optional (err Error.no_rows) = pure none
optional (err e) = raise e

-- A session as the handlers fill it in; Create sets the time.
abbrev pub empty_session : Data
empty_session = record {
  user_id = [];
  role = [];
  name = [];
  plant_id = [];
  shift_id = [];
  pump_id = [];
  phone = [];
  can_edit_price = false;
  can_manage_staff = false;
  can_manage_pumps = false;
  created_at = 0;
}
