-- ===== src/PasswordReset.antt =====
-- internal/passwordreset/passwordreset.go: IssueToken, Peek and Consume over the Redis client. The
-- random bytes, the text of an identifier and its parser are arguments.
pub mod Once
use gatstogo.Base.{ℕ, ◌*◌, Option, none, some, List, ◌++◌, Text, codes}
use gatstogo.Error.{Error, invalid_or_expired, Result, ok, err}
use gatstogo.Redis.{Redis}
use gatstogo.Tickets.Reference.{hex}

abbrev pub reset_ttl : ℕ
reset_ttl = 60 * 60 * 1000000000

abbrev pub reset_key : Text → Text
reset_key token = codes "password_reset:" ++ token

module _ {ℓ} {R : Type ℓ} (redis : Redis R) (uuid_text : ℕ → Text)
    (uuid_parse : Text → Option ℕ) where
  stored : Text → Result (Unit {0}) → Result Text
  stored token (ok u) = ok token
  stored token (err e) = err e

  unfoldable pub issue_token : ℕ → Result (List ℕ) → R → Result Text × R
  unfolding stored hex
  issue_token user (err e) r = (err e, r)
  issue_token user (ok raw) r =
      let (answer, r') = redis.set (reset_key (hex raw)) (uuid_text user) reset_ttl r in
      (stored (hex raw) answer, r')

  valid : Option ℕ → Result ℕ
  valid (some user) = ok user
  valid none = err invalid_or_expired

  pub user_of : Result (Option Text) → Result ℕ
  unfolding valid
  user_of (err e) = err e
  user_of (ok none) = err invalid_or_expired
  user_of (ok (some raw)) = valid (uuid_parse raw)

  unfoldable pub peek : Text → R → Result ℕ × R
  unfolding user_of
  peek token r = let (answer, r') = redis.get (reset_key token) r in (user_of answer, r')

  unfoldable pub consume : Text → R → Result ℕ × R
  unfolding user_of
  consume token r = let (answer, r') = redis.get_del (reset_key token) r in (user_of answer, r')
