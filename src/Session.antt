-- ===== src/Session.antt =====
-- internal/session/session.go: Data, and Store with Create, Load, Touch, SetShift and Delete over the
-- Redis client. The JSON form of a session is an argument, and so are the random bytes of a token and
-- the time at which it is made.
pub mod Guards
pub mod Refinement
use gatstogo.Base.{
  ℕ, ◌+◌, ◌*◌, Bool, true, false, Option, none, some, List, [], ◌∷◌, ◌++◌, Text, codes, base64url,
}
use gatstogo.Error.{Error, session_not_found, Result, ok, err}
use gatstogo.Redis.{Redis}

-- session.Role is a string; these are its constants.
abbrev pub role_owner : Text
role_owner = codes "owner"

abbrev pub role_manager : Text
role_manager = codes "manager"

abbrev pub role_cashier : Text
role_cashier = codes "cashier"

abbrev pub role_operator : Text
role_operator = codes "operator"

abbrev pub role_admin : Text
role_admin = codes "admin"

abbrev pub role_customer : Text
role_customer = codes "customer"

-- An empty text stands for what a session does not have.
pub record Data : Type 0 where
  pub user_id : Text
  pub role : Text
  pub name : Text
  pub plant_id : Text
  pub shift_id : Text
  pub pump_id : Text
  pub phone : Text
  pub can_edit_price : Bool
  pub can_manage_staff : Bool
  pub can_manage_pumps : Bool
  pub created_at : ℕ

abbrev pub owner_ttl : ℕ
owner_ttl = 12 * 60 * 60 * 1000000000

abbrev pub staff_backstop_ttl : ℕ
staff_backstop_ttl = 24 * 60 * 60 * 1000000000

abbrev pub receipt_session_ttl : ℕ
receipt_session_ttl = 30 * 60 * 1000000000

abbrev pub session_key : Text → Text
session_key token = codes "session:" ++ token

unfoldable pub new_token : Result (List ℕ) → Result Text
unfolding base64url
new_token (ok bytes) = ok (base64url bytes)
new_token (err e) = err e

-- json.Marshal and json.Unmarshal of Data.
pub record Codec : Type 0 where
  pub encode : Data → Text
  pub decode : Text → Result Data
  pub decode-encode : (d : Data) → Path (Result Data) (decode (encode d)) (ok d)

module _ {ℓ} {R : Type ℓ} (redis : Redis R) (json : Codec) where
  stored : Text → Result (Unit {0}) → Result Text
  stored token (ok u) = ok token
  stored token (err e) = err e

  create_with : Data → ℕ → Result Text → R → Result Text × R
  unfolding stored
  create_with d ttl (err e) r = (err e, r)
  create_with d ttl (ok token) r =
      let (answer, r') = redis.set (session_key token) (json.encode d) ttl r in
      (stored token answer, r')

  -- The token of the new session.
  unfoldable pub create : Data → ℕ → Result (List ℕ) → ℕ → R → Result Text × R
  unfolding create_with new_token
  create d ttl bytes now r = create_with (record d { created_at = now }) ttl (new_token bytes) r

  decoded : Result (Option Text) → Result Data
  decoded (ok (some b)) = json.decode b
  decoded (ok none) = err session_not_found
  decoded (err e) = err e

  unfoldable pub load : Text → R → Result Data × R
  unfolding decoded
  load token r = let (answer, r') = redis.get (session_key token) r in (decoded answer, r')

  found : Result Bool → Result (Unit {0})
  found (ok true) = ok tt
  found (ok false) = err session_not_found
  found (err e) = err e

  unfoldable pub touch : Text → ℕ → R → Result (Unit {0}) × R
  unfolding found
  touch token ttl r =
      let (answer, r') = redis.expire (session_key token) ttl r in (found answer, r')

  set_shift_in : Text → Text → Result Data → R → Result (Unit {0}) × R
  set_shift_in token shift (err e) r = (err e, r)
  set_shift_in token shift (ok d) r =
      redis.set (session_key token) (json.encode (record d { shift_id = shift })) staff_backstop_ttl
        r

  unfoldable pub set_shift : Text → Text → R → Result (Unit {0}) × R
  unfolding set_shift_in load
  set_shift token shift r = let (d, r') = load token r in set_shift_in token shift d r'

  unfoldable pub delete : Text → R → Result (Unit {0}) × R
  delete token r = redis.del (session_key token) r
