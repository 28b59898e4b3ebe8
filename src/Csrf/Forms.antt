-- ===== src/Csrf/Forms.antt =====
-- internal/csrf/csrf.go and internal/middleware/csrf.go: a form, from the page that renders it to its
-- submission.
use gatstogo.Base.{
  ℕ, ◌≡◌, refl, Bool, false, not, ◌&&◌, Option, none, some, List, [], ◌∷◌, Text, text_eq, is_empty,
  if◌then◌else◌,
}
use gatstogo.Error.{Result, ok, err}
use gatstogo.Csrf.{
  Request, is_safe, submitted_token, new_public_token, minted, ensure_public_csrf_cookie,
  verify_public, verify_cookie, token, matches, verify, verify_request, csrf,
}

-- The token that a page embeds: of a visitor without a session the cookie's, which the page may set;
-- of a session its token, or nothing where Token fails.
abbrev or_nothing : Result Text → Text
or_nothing (ok t) = t
or_nothing (err e) = []

-- The browser's cookie after the answer that set one or none.
abbrev after_answer : Option Text → Option Text → Option Text
after_answer before none = before
after_answer before (some t) = some t

module _ (hmac : List ℕ → Text → List ℕ) (secret : List ℕ) where
  unfoldable pub embedded : Option Text → Option Text → Result (List ℕ) → Text
  embedded none cookie bytes = (ensure_public_csrf_cookie cookie bytes).0
  embedded (some session) cookie bytes = or_nothing (token hmac secret session)

  unfoldable pub later_cookie : Option Text → Option Text → Result (List ℕ) → Option Text
  later_cookie none cookie bytes = after_answer cookie (ensure_public_csrf_cookie cookie bytes).1
  later_cookie (some session) cookie bytes = cookie

  abbrev accepted : Text → Text → Bool
  accepted expected submitted = not (is_empty expected) && text_eq expected submitted

  verify_public-accepted :
      (cookie submitted : Text) → verify_public cookie submitted ≡ accepted cookie submitted
  unfolding verify_public text_eq
  verify_public-accepted [] submitted = refl
  verify_public-accepted (c ∷ s) [] = refl
  verify_public-accepted (c ∷ s) (d ∷ t) = refl

  matches-accepted :
      (expected : Result Text) (submitted : Text)
      → (if is_empty submitted then false else matches hmac secret expected submitted)
        ≡ accepted (or_nothing expected) submitted
  unfolding matches text_eq
  matches-accepted (err e) [] = refl
  matches-accepted (err e) (d ∷ t) = refl
  matches-accepted (ok []) [] = refl
  matches-accepted (ok []) (d ∷ t) = refl
  matches-accepted (ok (c ∷ s)) [] = refl
  matches-accepted (ok (c ∷ s)) (d ∷ t) = refl

  cookie_accepted :
      (cookie : Option Text) (bytes : Result (List ℕ)) (submitted : Text)
      → verify_cookie (later_cookie none cookie bytes) submitted
        ≡ accepted (embedded none cookie bytes) submitted
  unfolding verify_cookie later_cookie embedded ensure_public_csrf_cookie minted new_public_token
  cookie_accepted (some (c ∷ s)) bytes submitted = verify_public-accepted (c ∷ s) submitted
  cookie_accepted none (ok bytes) submitted = verify_public-accepted _ submitted
  cookie_accepted none (err e) submitted = refl
  cookie_accepted (some []) (ok bytes) submitted = verify_public-accepted _ submitted
  cookie_accepted (some []) (err e) submitted = verify_public-accepted [] submitted

  session_accepted :
      (session : Text) (cookie : Option Text) (bytes : Result (List ℕ)) (submitted : Text)
      → verify hmac secret session submitted
        ≡ accepted (embedded (some session) cookie bytes) submitted
  unfolding verify embedded
  session_accepted session cookie bytes submitted =
      matches-accepted (token hmac secret session) submitted

  -- A request that changes something, sent with the cookie that the browser has after it read a page,
  -- passes exactly when what it submits, in the header or else in the form, is the token that the page
  -- embeds, and that token is not empty; with a session and without one. So nothing passes where no
  -- token could be made.
  pub csrf-embedded :
      (session cookie : Option Text) (bytes : Result (List ℕ)) (r : Request)
      → is_safe r.method ≡ false
      → r.cookie ≡ later_cookie session cookie bytes
      → csrf hmac secret session r ≡ (
          not (is_empty (embedded session cookie bytes))
          && text_eq (embedded session cookie bytes) (submitted_token r))
  unfolding csrf verify_request
  csrf-embedded none cookie bytes r change sent =
      rw (change, sent) (cookie_accepted cookie bytes (submitted_token r))
  csrf-embedded (some session) cookie bytes r change sent =
      rw change (session_accepted session cookie bytes (submitted_token r))
