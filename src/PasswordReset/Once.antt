-- ===== src/PasswordReset/Once.antt =====
-- internal/passwordreset/passwordreset.go: the life of a token.
use gatstogo.Base.{ℕ, zero, suc, ◌≡◌, refl, sym, ap, ◌∙◌, Option, none, some, List, Text}
use gatstogo.Error.{invalid_or_expired, Result, ok, err}
use gatstogo.Redis.{Redis, Answers}
use gatstogo.Tickets.Reference.{hex}
use gatstogo.PasswordReset.{
  reset_key, reset_ttl, stored, issue_token, user_of, valid, peek, consume,
}

module _ {ℓ} {R : Type ℓ} (redis : Redis R) (server : Answers redis) (uuid_text : ℕ → Text)
    (uuid_parse : Text → Option ℕ) where
  issue_token-eq-ok :
      (user : ℕ) (bytes : Result (List ℕ)) (r : R) (token : Text)
      → (issue_token redis uuid_text uuid_parse user bytes r).0 ≡ ok token
      → server.text (issue_token redis uuid_text uuid_parse user bytes r).1 (reset_key token)
        ≡ some (uuid_text user)
  unfolding issue_token stored
  issue_token-eq-ok user (err e) r token h = cc
  issue_token-eq-ok user (ok raw) r token h =
      let same : (◌≡◌ {A = Result Text} (ok (hex raw)) (ok token)) =
        ap (stored redis uuid_text uuid_parse (hex raw))
          (sym (server.set_ok (reset_key (hex raw)) (uuid_text user) reset_ttl r))
        ∙ h in
      let e : hex raw ≡ token = cc in
      rw e (server.set_text (reset_key token) (uuid_text user) reset_ttl r)

  -- A look changes nothing.
  pub peek_lem :
      (token : Text) (r : R)
      → peek redis uuid_text uuid_parse token r
        ≡ (user_of redis uuid_text uuid_parse (ok (server.text r (reset_key token))), r)
  unfolding peek
  peek_lem token r = rw (server.get_ok (reset_key token) r) refl

  pub consume_lem :
      (token : Text) (r : R)
      → (consume redis uuid_text uuid_parse token r).0
        ≡ user_of redis uuid_text uuid_parse (ok (server.text r (reset_key token)))
  unfolding consume
  consume_lem token r = rw (server.get_del_ok (reset_key token) r) refl

  pub consume-text :
      (token : Text) (r : R)
      → server.text (consume redis uuid_text uuid_parse token r).1 (reset_key token) ≡ none
  unfolding consume
  consume-text token r = server.get_del_text (reset_key token) r

  pub consume_spent :
      (token : Text) (r : R)
      → server.text r (reset_key token) ≡ none
      → (consume redis uuid_text uuid_parse token r).0 ≡ err invalid_or_expired
  unfolding user_of
  consume_spent token r h = rw (consume_lem token r, h) refl

  -- Looking at a link any number of times.
  peeks : ℕ → Text → R → R
  peeks zero token r = r
  peeks (suc n) token r = peeks n token (peek redis uuid_text uuid_parse token r).1

  peeks_lem : (n : ℕ) (token : Text) (r : R) → peeks n token r ≡ r
  unfolding peeks
  peeks_lem zero token r = refl
  peeks_lem (suc n) token r =
      ap (λ (p : Result ℕ × R). peeks n token p.1) (peek_lem token r) ∙ peeks_lem n token r

  -- Where Redis answers and the parser of identifiers reads back what it wrote: a token that was
  -- issued for a user still gives that user after any number of looks; the first Consume gives the
  -- user; and from then on a look and another Consume find the token invalid.
  issued_once :
      (user n : ℕ) (bytes : Result (List ℕ)) (r : R) (token : Text)
      → uuid_parse (uuid_text user) ≡ some user
      → (issue_token redis uuid_text uuid_parse user bytes r).0 ≡ ok token
      → let looked = peeks n token (issue_token redis uuid_text uuid_parse user bytes r).1 in
        let used = (consume redis uuid_text uuid_parse token looked).1 in
        ((peek redis uuid_text uuid_parse token looked).0 ≡ ok user)
        × ((consume redis uuid_text uuid_parse token looked).0 ≡ ok user)
        × ((peek redis uuid_text uuid_parse token used).0 ≡ err invalid_or_expired)
        × ((consume redis uuid_text uuid_parse token used).0 ≡ err invalid_or_expired)
  unfolding user_of valid
  issued_once user n bytes r token parses issued =
      let r' = (issue_token redis uuid_text uuid_parse user bytes r).1 in
      let there = issue_token-eq-ok user bytes r token issued in
      rw (peeks_lem n token r') (
        ap (λ (p : Result ℕ × R). p.0) (peek_lem token r') ∙ rw (there, parses) refl,
        consume_lem token r' ∙ rw (there, parses) refl,
        ap (λ (p : Result ℕ × R). p.0) (peek_lem token _) ∙ rw (consume-text token r') refl,
        consume_spent token _ (consume-text token r'),
      )
