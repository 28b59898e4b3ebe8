-- ===== src/Csrf.antt =====
-- internal/csrf/csrf.go: Token, Verify, NewPublicToken and VerifyPublic; internal/middleware/csrf.go:
-- EnsurePublicCSRFCookie and CSRF. HMAC-SHA256 of a text's bytes under a key is an argument, and so
-- is the server's secret.
pub mod Forms
use gatstogo.Base.{
  ℕ, Bool, true, false, not, ◌&&◌, ◌||◌, Option, none, some, List, [], ◌∷◌, Text, text_eq, codes,
  is_empty, base64url, if◌then◌else◌,
}
use gatstogo.Error.{Error, no_secret, Result, ok, err}

-- Of a request: its method, the header X-CSRF-Token and the form value csrf_token, which are empty
-- when missing, and the cookie gtg_csrf.
pub record Request : Type 0 where
  pub method : Text
  pub header : Text
  pub form_value : Text
  pub cookie : Option Text

unfoldable pub new_public_token : Result (List ℕ) → Result Text
unfolding base64url
new_public_token (ok bytes) = ok (base64url bytes)
new_public_token (err e) = err e

unfoldable pub verify_public : Text → Text → Bool
unfolding text_eq
verify_public cookie submitted =
    if is_empty cookie || is_empty submitted then false else text_eq cookie submitted

minted : Result Text → Text × Option Text
minted (ok token) = (token, some token)
minted (err e) = ([], none)

-- The value for the page, and the cookie that is set.
unfoldable pub ensure_public_csrf_cookie : Option Text → Result (List ℕ) → Text × Option Text
unfolding minted new_public_token
ensure_public_csrf_cookie (some (c ∷ s)) bytes = (c ∷ s, none)
ensure_public_csrf_cookie _ bytes = minted (new_public_token bytes)

-- GET, HEAD and OPTIONS.
abbrev pub is_safe : Text → Bool
is_safe method =
    text_eq method (codes "GET")
    || text_eq method (codes "HEAD")
    || text_eq method (codes "OPTIONS")

abbrev pub submitted_token : Request → Text
submitted_token r = if is_empty r.header then r.form_value else r.header

verify_cookie : Option Text → Text → Bool
unfolding verify_public
verify_cookie none submitted = false
verify_cookie (some value) submitted = verify_public value submitted

module _ (hmac : List ℕ → Text → List ℕ) (secret : List ℕ) where
  unfoldable pub token : Text → Result Text
  unfolding base64url
  token session = if is_empty secret then err no_secret else ok (base64url (hmac secret session))

  matches : Result Text → Text → Bool
  unfolding text_eq
  matches (err e) submitted = false
  matches (ok expected) submitted = text_eq expected submitted

  unfoldable pub verify : Text → Text → Bool
  unfolding matches token
  verify session submitted = if is_empty submitted then false else matches (token session) submitted

  -- With the session token of the actor, where a guard before found one.
  verify_request : Option Text → Request → Bool
  unfolding verify verify_cookie
  verify_request (some session) r = verify session (submitted_token r)
  verify_request none r = verify_cookie r.cookie (submitted_token r)

  -- Whether the request reaches the next handler; else it is answered with 403.
  unfoldable pub csrf : Option Text → Request → Bool
  unfolding verify_request text_eq
  csrf session r = if is_safe r.method then true else verify_request session r
