-- ===== src/Auth.antt =====
-- internal/auth/password.go: HashPassword and VerifyPassword over bcrypt's two functions, which are
-- arguments; internal/session's roles of users; cmd/server/accounts.go: checkIPRateLimit.
use gatstogo.Base.{ℕ, ◌++◌, Bool, true, false, Text, codes, is_empty, leb, ◌==◌, if◌then◌else◌}
use gatstogo.Error.{Result, ok, err}
use gatstogo.Db.Schema.{Role}
use gatstogo.Redis.{Redis}

-- bcrypt.GenerateFromPassword at the default cost, and CompareHashAndPassword.
pub record Bcrypt : Type 0 where
  pub generate : Text → Result Text
  pub compare : Text → Text → Bool

unfoldable pub hash_password : Bcrypt → Text → Result Text
hash_password bcrypt plain = bcrypt.generate plain

unfoldable pub verify_password : Bcrypt → Text → Text → Bool
verify_password bcrypt hash plain = if is_empty hash then false else bcrypt.compare hash plain

-- users.role as a text.
abbrev pub role_text : Role → Text
role_text Role.owner = codes "owner"
role_text Role.manager = codes "manager"
role_text Role.cashier = codes "cashier"
role_text Role.operator = codes "operator"
role_text Role.admin = codes "admin"

-- The callers let a request through when the check fails.
abbrev pub is_allowed : Result Bool → Bool
is_allowed (ok allowed) = allowed
is_allowed (err e) = true

module _ {ℓ} {R : Type ℓ} (redis : Redis R) where
  within : ℕ → ℕ → Result Bool → Result Bool
  within max n (ok live) = ok (leb n max)
  within max n (err e) = err e

  after_incr : Text → ℕ → ℕ → Result ℕ → R → Result Bool × R
  unfolding within
  after_incr key max window (err e) r = (err e, r)
  after_incr key max window (ok n) r =
      if n == 1
      then (let (answer, r') = redis.expire key window r in (within max n answer, r'))
      else (ok (leb n max), r)

  unfoldable pub check_ip_rate_limit : Text → Text → ℕ → ℕ → R → Result Bool × R
  unfolding after_incr
  check_ip_rate_limit key_prefix ip max window r =
      let (answer, r') = redis.incr (key_prefix ++ ip) r in
      after_incr (key_prefix ++ ip) max window answer r'
