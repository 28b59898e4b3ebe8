-- ===== src/Terminal/Shift/SignedOut.antt =====
-- cmd/server/terminal.go: the end of a session at the terminal.
use gatstogo.Base.{ℕ, ℤ, ◌≡◌, true, Option, none, some, Text}
use gatstogo.Error.{session_not_found, Result, ok, err}
use gatstogo.Db.Statement.{Store}
use gatstogo.Redis.{Redis, Answers}
use gatstogo.Session.{Codec, delete}
use gatstogo.Session.Guards.{Outcome}
use gatstogo.Session.Guards.Admission.{Guard, guarded, guarded-missing}
use gatstogo.Session.Guards.Login.{load-delete}
use gatstogo.Terminal.{Reply}
use gatstogo.Terminal.Shift.Ending.{
  Signed, ended, end_shift, end_shift_of, terminal_logout, terminal_shift_end,
}

module _ {ℓ} {R : Type ℓ} (redis : Redis R) (server : Answers redis) (json : Codec)
    (uuid_text : ℕ → Text) (uuid_parse : Text → Option ℕ) (guard : Guard) (other : ℕ) where
  -- The guard, at the plant, turns the token away.
  abbrev IsOut : Text → R → Type 0
  IsOut token r =
      (guarded redis json uuid_text uuid_parse other token guard r).0 ≡ Outcome.turned_away true

  delete-IsOut : (token : Text) (r : R) → IsOut token (delete redis json token r).1
  delete-IsOut token r =
      guarded-missing redis json uuid_text uuid_parse other token guard
        (delete redis json token r).1 session_not_found (load-delete redis server json token r)

  ended-IsOut :
      (token : Text) (answer : Result (Unit {0})) (s : Store) (r : R)
      → (ended redis json uuid_text token answer s r).0 ≡ Reply.json tt
      → IsOut token (ended redis json uuid_text token answer s r).2
  unfolding ended
  ended-IsOut token (ok u) s r h = delete-IsOut token r
  ended-IsOut token (err e) s r h = cc

  end_shift-IsOut :
      (plant shift : ℕ) (actor : Signed) (form : Option (Option ℤ × Text)) (s : Store) (r : R)
      → (end_shift redis json uuid_text plant shift actor form s r).0 ≡ Reply.json tt
      → IsOut actor.token (end_shift redis json uuid_text plant shift actor form s r).2
  unfolding end_shift
  end_shift-IsOut plant shift actor none s r h = cc
  end_shift-IsOut plant shift actor (some (none, notes)) s r h = cc
  end_shift-IsOut plant shift actor (some (some closing, notes)) s r h =
      ended-IsOut actor.token _ _ r h

  end_shift_of-IsOut :
      (plant : ℕ) (actor : Signed) (shift : Option ℕ) (form : Option (Option ℤ × Text)) (s : Store)
      (r : R)
      → (end_shift_of redis json uuid_text plant actor shift form s r).0 ≡ Reply.json tt
      → IsOut actor.token (end_shift_of redis json uuid_text plant actor shift form s r).2
  unfolding end_shift_of
  end_shift_of-IsOut plant actor none form s r h = cc
  end_shift_of-IsOut plant actor (some shift) form s r h =
      end_shift-IsOut plant shift actor form s r h

  -- Where Redis answers: after a sign-out at the terminal, whatever came of its log entry, and after
  -- the end of a shift that the terminal accepted, no guard of any plant lets the session's token in
  -- any more.
  finished-IsOut :
      (plant : ℕ) (actor : Signed) (form : Option (Option ℤ × Text)) (s : Store) (r : R)
      → (terminal_shift_end redis json uuid_text (some (plant, actor)) form s r).0 ≡ Reply.json tt
      → IsOut actor.token (terminal_logout redis json uuid_text (some (plant, actor)) s r).2
        × IsOut actor.token
            (terminal_shift_end redis json uuid_text (some (plant, actor)) form s r).2
  unfolding terminal_logout terminal_shift_end
  finished-IsOut plant actor form s r h =
      (delete-IsOut actor.token r, end_shift_of-IsOut plant actor actor.shift_id form s r h)
