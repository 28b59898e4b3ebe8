-- ===== src/Terminal/Shift/Ending.antt =====
-- cmd/server/terminal.go: terminalLogoutHandler and terminalShiftEndHandler.
use gatstogo.Base.{ℕ, ℤ, Option, none, some, Text, codes, trim_space}
use gatstogo.Error.{Result, ok, err}
use gatstogo.Db.Statement.{Store, M, ◌>>=◌, ◌>>◌}
use gatstogo.Tenant.{with_tenant, log}
use gatstogo.Redis.{Redis}
use gatstogo.Shifts.Lifecycle.{close}
use gatstogo.Session.{Codec, delete}
use gatstogo.Terminal.{Reply}

-- What a request to sign out carries of the session that the guard found.
pub record Signed : Type 0 where
  pub user_id : ℕ
  pub shift_id : Option ℕ
  pub token : Text

module _ {ℓ} {R : Type ℓ} (redis : Redis R) (json : Codec) (uuid_text : ℕ → Text) where
  abbrev Answer : Type ℓ
  Answer = Reply (Unit {0}) × Store × R

  -- The errors of the log and of Delete are dropped.
  unfoldable pub terminal_logout : Option (ℕ × Signed) → Store → R → Answer
  unfolding with_tenant log delete
  terminal_logout none s r = (Reply.refused 401, s, r)
  terminal_logout (some (plant, actor)) s r = (
    Reply.json tt,
    (with_tenant plant
        (log (some plant) (some actor.user_id) (codes "terminal.logged_out") (codes "")) s).1,
    (delete redis json actor.token r).1,
  )

  -- The function that WithTenant runs.
  unfoldable end_in_tenant : ℕ → ℕ → ℕ → ℤ → Text → M (Unit {0})
  unfolding close log ◌>>=◌
  end_in_tenant plant shift user closing notes = do
    close plant shift user closing notes
    log (some plant) (some user) (codes "shift.closed") (uuid_text shift)

  unfoldable pub ended : Text → Result (Unit {0}) → Store → R → Answer
  unfolding delete
  ended token (ok u) s r = (Reply.json tt, s, (delete redis json token r).1)
  ended token (err e) s r = (Reply.refused 500, s, r)

  unfoldable pub end_shift : ℕ → ℕ → Signed → Option (Option ℤ × Text) → Store → R → Answer
  unfolding with_tenant end_in_tenant ended trim_space
  end_shift plant shift actor none s r = (Reply.refused 400, s, r)
  end_shift plant shift actor (some (none, notes)) s r = (Reply.refused 400, s, r)
  end_shift plant shift actor (some (some closing, notes)) s r =
      let (answer, s') =
        with_tenant plant (end_in_tenant plant shift actor.user_id closing (trim_space notes)) s in
      ended actor.token answer s' r

  unfoldable pub end_shift_of :
      ℕ → Signed → Option ℕ → Option (Option ℤ × Text) → Store → R → Answer
  unfolding end_shift
  end_shift_of plant actor none form s r = (Reply.refused 401, s, r)
  end_shift_of plant actor (some shift) form s r = end_shift plant shift actor form s r

  -- The form: the closing cash in kobo if it reads as a number that is not negative, and the notes.
  unfoldable pub terminal_shift_end :
      Option (ℕ × Signed) → Option (Option ℤ × Text) → Store → R → Answer
  unfolding end_shift_of
  terminal_shift_end none form s r = (Reply.refused 401, s, r)
  terminal_shift_end (some (plant, actor)) form s r =
      end_shift_of plant actor actor.shift_id form s r
