-- ===== src/Session/Refinement.antt =====
-- internal/session/session.go: the Store over a Redis that answers is a map from tokens to sessions.
use mathlib.Core.Option
use gatstogo.Base.{
  ℕ, zero, suc, ◌≡◌, refl, ap, ◌∙◌, false, Bool-cases, inl, inr, Option, none, some, List, [], ◌∷◌,
  Text, text_eq, text_eq_iff, if◌then◌else◌,
}
use gatstogo.Error.{session_not_found, Result, ok, err}
use gatstogo.Redis.{Redis, Answers}
use gatstogo.Session.{
  Data, Codec, session_key, new_token, create, create_with, load, touch, set_shift, delete,
  staff_backstop_ttl,
}

abbrev pub Sessions : Type 0
Sessions = Text → Option Data

-- The map changed at one token.
abbrev pub update : Text → Option Data → Sessions → Sessions
update token o m t = if text_eq token t then o else m t

pub data Command : Type 0 where
  mint : Data → ℕ → Result (List ℕ) → ℕ → Command
  read : Text → Command
  renew : Text → ℕ → Command
  attach : Text → Text → Command
  finish : Text → Command

pub data Reply : Type 0 where
  token : Result Text → Reply
  session : Result Data → Reply
  done : Result (Unit {0}) → Reply

-- What each call answers and does, on the map.
spec_create : Data → ℕ → Result Text → Sessions → Reply × Sessions
spec_create d now (ok t) m = (Reply.token (ok t), update t (some (record d { created_at = now })) m)
spec_create d now (err e) m = (Reply.token (err e), m)

spec_load : Option Data → Result Data
spec_load (some d) = ok d
spec_load none = err session_not_found

spec_touch : Option Data → Result (Unit {0})
spec_touch (some d) = ok tt
spec_touch none = err session_not_found

-- With no time left the session goes.
spec_renew : Text → ℕ → Sessions → Sessions
spec_renew t zero m = update t none m
spec_renew t (suc ttl) m = m

spec_set_shift : Text → Text → Option Data → Sessions → Reply × Sessions
spec_set_shift t shift (some d) m =
    (Reply.done (ok tt), update t (some (record d { shift_id = shift })) m)
spec_set_shift t shift none m = (Reply.done (err session_not_found), m)

spec_step : Command → Sessions → Reply × Sessions
unfolding spec_create spec_load spec_touch spec_renew spec_set_shift new_token
spec_step (Command.mint d ttl bytes now) m = spec_create d now (new_token bytes) m
spec_step (Command.read t) m = (Reply.session (spec_load (m t)), m)
spec_step (Command.renew t ttl) m = (Reply.done (spec_touch (m t)), spec_renew t ttl m)
spec_step (Command.attach t shift) m = spec_set_shift t shift (m t) m
spec_step (Command.finish t) m = (Reply.done (ok tt), update t none m)

pub replay : List Command → Sessions → List Reply × Sessions
replay [] m = ([], m)
replay (c ∷ rest) m = let (a, m') = spec_step c m in let (rs, m'') = replay rest m' in (a ∷ rs, m'')

module _ {ℓ} {R : Type ℓ} (redis : Redis R) (json : Codec) where
  step : Command → R → Reply × R
  step (Command.mint d ttl bytes now) r =
      let (a, r') = create redis json d ttl bytes now r in (Reply.token a, r')
  step (Command.read t) r = let (a, r') = load redis json t r in (Reply.session a, r')
  step (Command.renew t ttl) r = let (a, r') = touch redis json t ttl r in (Reply.done a, r')
  step (Command.attach t shift) r =
      let (a, r') = set_shift redis json t shift r in (Reply.done a, r')
  step (Command.finish t) r = let (a, r') = delete redis json t r in (Reply.done a, r')

  pub serve : List Command → R → List Reply × R
  serve [] r = ([], r)
  serve (c ∷ rest) r = let (a, r') = step c r in let (rs, r'') = serve rest r' in (a ∷ rs, r'')

module _ {ℓ} {R : Type ℓ} (redis : Redis R) (server : Answers redis) (json : Codec) where
  -- The server holds the session of each token, in its JSON form.
  pub record Represents (r : R) (m : Sessions) : Type ℓ where
    pub held : (t : Text) → server.text r (session_key t) ≡ Option.map json.encode (m t)

  apart : (t t' : Text) → text_eq t t' ≡ false → text_eq (session_key t) (session_key t') ≡ false
  unfolding text_eq
  apart t t' h = h

  -- A SET of a session.
  Represents-set :
      (r : R) (m : Sessions) (t : Text) (d : Data) (ttl : ℕ)
      → Represents r m
      → Represents (redis.set (session_key t) (json.encode d) ttl r).1 (update t (some d) m)
  Represents-set r m t d ttl h = record {
    held = λ t'. elim (Bool-cases (text_eq t t')) [
      | inl same ↦
          let e : t ≡ t' = (text_eq_iff t t').0 same in
          rw same (rw (← e) (server.set_text (session_key t) (json.encode d) ttl r))
      | inr other ↦ rw other (
          server.set_other (session_key t) (session_key t') (json.encode d) ttl r (apart t t' other)
          ∙ h.held t')
    ];
  }

  Represents-del :
      (r : R) (m : Sessions) (t : Text)
      → Represents r m
      → Represents (redis.del (session_key t) r).1 (update t none m)
  Represents-del r m t h = record {
    held = λ t'. elim (Bool-cases (text_eq t t')) [
      | inl same ↦
          let e : t ≡ t' = (text_eq_iff t t').0 same in
          rw same (rw (← e) (server.del_text (session_key t) r))
      | inr other ↦
          rw other
            (server.del_other (session_key t) (session_key t') r (apart t t' other) ∙ h.held t')
    ];
  }

  Represents-expire :
      (r : R) (m : Sessions) (t : Text) (ttl : ℕ)
      → Represents r m
      → Represents (redis.expire (session_key t) ttl r).1 (spec_renew t ttl m)
  unfolding spec_renew
  Represents-expire r m t zero h = record {
    held = λ t'. elim (Bool-cases (text_eq t t')) [
      | inl same ↦
          let e : t ≡ t' = (text_eq_iff t t').0 same in
          rw same (rw (← e) (server.expire_gone (session_key t) r))
      | inr other ↦
          rw other (
            server.expire_other (session_key t) (session_key t') 0 r (apart t t' other) ∙ h.held t')
    ];
  }
  Represents-expire r m t (suc ttl) h = record {
    held = λ t'. server.expire_text (session_key t) (session_key t') ttl r ∙ h.held t';
  }

  abbrev Agrees : Reply × R → Reply × Sessions → Type ℓ
  Agrees (a, r) (b, m) = (a ≡ b) × Represents r m

  create-Agrees :
      (d : Data) (ttl now : ℕ) (t : Result Text) (r : R) (m : Sessions)
      → Represents r m
      → let (a, r') = create_with redis json (record d { created_at = now }) ttl t r in
        Agrees (Reply.token a, r') (spec_create d now t m)
  unfolding create_with spec_create
  create-Agrees d ttl now (ok t) r m h = (
    rw (server.set_ok (session_key t) _ ttl r) refl,
    Represents-set r m t (record d { created_at = now }) ttl h,
  )
  create-Agrees d ttl now (err e) r m h = (refl, h)

  load-Agrees :
      (t : Text) (o : Option Data) (r : R)
      → server.text r (session_key t) ≡ Option.map json.encode o
      → load redis json t r ≡ (spec_load o, r)
  unfolding load spec_load
  load-Agrees t none r e = rw (server.get_ok (session_key t) r, e) refl
  load-Agrees t (some d) r e =
      rw (server.get_ok (session_key t) r, e) (rw (json.decode-encode d) refl)

  touch-Agrees :
      (t : Text) (ttl : ℕ) (o : Option Data) (r : R)
      → server.text r (session_key t) ≡ Option.map json.encode o
      → (touch redis json t ttl r).0 ≡ spec_touch o
  unfolding touch spec_touch
  touch-Agrees t ttl none r e = rw (server.expire_none (session_key t) ttl r e) refl
  touch-Agrees t ttl (some d) r e =
      rw (server.expire_some (session_key t) (json.encode d) ttl r e) refl

  set_shift-Agrees :
      (t shift : Text) (o : Option Data) (r : R) (m : Sessions)
      → m t ≡ o
      → Represents r m
      → let (a, r') = set_shift redis json t shift r in
        Agrees (Reply.done a, r') (spec_set_shift t shift o m)
  unfolding set_shift spec_set_shift spec_load
  set_shift-Agrees t shift none r m e h =
      let here = h.held t ∙ ap (Option.map json.encode) e in
      rw (server.get_ok (session_key t) r, here) (refl, h)
  set_shift-Agrees t shift (some d) r m e h =
      let here = h.held t ∙ ap (Option.map json.encode) e in
      rw (server.get_ok (session_key t) r, here)
        (rw (json.decode-encode d) (
          rw (server.set_ok (session_key t) _ staff_backstop_ttl r) refl,
          Represents-set r m t (record d { shift_id = shift }) staff_backstop_ttl h,
        ))

  step-Agrees :
      (c : Command) (r : R) (m : Sessions)
      → Represents r m
      → Agrees (step redis json c r) (spec_step c m)
  unfolding step spec_step create touch delete
  step-Agrees (Command.mint d ttl bytes now) r m h = create-Agrees d ttl now (new_token bytes) r m h
  step-Agrees (Command.read t) r m h = rw (load-Agrees t (m t) r (h.held t)) (refl, h)
  step-Agrees (Command.renew t ttl) r m h =
      (ap Reply.done (touch-Agrees t ttl (m t) r (h.held t)), Represents-expire r m t ttl h)
  step-Agrees (Command.attach t shift) r m h = set_shift-Agrees t shift (m t) r m refl h
  step-Agrees (Command.finish t) r m h =
      (ap Reply.done (server.del_ok (session_key t) r), Represents-del r m t h)

  -- On a Redis that answers, any calls of the Store answer as they would on a map from tokens to
  -- sessions, and leave a Redis that holds the map: Create adds a session, Load reads one, Touch
  -- tells whether there is one and with no time left removes it, SetShift changes one, and Delete
  -- removes one.
  pub serve_refines :
      (commands : List Command) (r : R) (m : Sessions)
      → Represents r m
      → ((serve redis json commands r).0 ≡ (replay commands m).0)
        × Represents (serve redis json commands r).1 (replay commands m).1
  unfolding serve replay
  serve_refines [] r m h = (refl, h)
  serve_refines (c ∷ rest) r m h =
      let (same, h') = step-Agrees c r m h in
      let (others, h'') = serve_refines rest (step redis json c r).1 (spec_step c m).1 h' in
      (rw (same, others) refl, h'')
