-- ===== src/SignIn/Forgotten/Reset.antt =====
-- cmd/server/auth.go: what a password reset does to the tables and to its link.
use gatstogo.Base.{
  ℕ, zero, suc, ◌≡◌, ◌≢◌, refl, sym, ap, subst, ◌∙◌, true, false, ◌||◌, Bool-cases, inl, inr,
  Option, some, [], Text, text_eq, text_eq_iff, codes, is_empty, arith,
}
use gatstogo.Error.{Result, ok, err}
use gatstogo.Db.Schema.{Db}
use gatstogo.Db.Table.{update_where, count_where}
use gatstogo.Db.Statement.{Store, exec, ◌>>◌}
use gatstogo.Db.Statement.Returns.{>>=-eq-ok, exec-Executed}
use gatstogo.Tenant.{with_tenant, log}
use gatstogo.Tenant.Returns.{with_tenant-Ran}
use gatstogo.Redis.{Redis, Answers}
use gatstogo.Auth.{Bcrypt, hash_password}
use gatstogo.PasswordReset.{peek, consume}
use gatstogo.PasswordReset.Once.{peek_lem, consume_lem, consume-text, consume_spent}
use gatstogo.SignIn.Forgotten.Accounts.{AccountSet, updated-AccountSet}
use gatstogo.SignIn.Forgotten.{
  ResetReply, ResetForm, is_owner_row, with_password, updated_one, store_password, stored_reply,
  with_hash, for_user, with_token, reset_password,
}

updated_one-pos : (rows : ℕ) (t : Store) → (updated_one rows t).0 ≡ ok tt → rows ≢ 0
unfolding updated_one
updated_one-pos zero t h = cc
updated_one-pos (suc n) t h = omega arith

updated_one-same : (rows : ℕ) (t : Store) → (updated_one rows t).1 ≡ t
unfolding updated_one
updated_one-same rows t = ground arith

-- The UPDATE took a row, and nothing after it but the log.
abbrev PasswordSet : ℕ → ℕ → Text → Db → Db → Type 0
PasswordSet plant user hash before after =
    (count_where (is_owner_row plant user) before.users ≢ 0)
    × (record after { activity_log = [] } ≡ record before {
      users = update_where (is_owner_row plant user) (with_password hash) before.users;
      activity_log = [];
    })

log-kept :
    (plant user : ℕ) (t : Store)
    → (log (some plant) (some user) (codes "owner.password_reset") (codes "") t).0 ≡ ok tt
    → record (log (some plant) (some user) (codes "owner.password_reset") (codes "") t).1.db {
      activity_log = [];
    }
      ≡ record t.db { activity_log = [] }
unfolding log
log-kept plant user t h =
    let (e, n) = exec-Executed _ tt t h in
    ap (λ (p : Unit {0} × Db). record p.1 { activity_log = [] }) (sym e)

-- The UPDATE.
set_hash : ℕ → ℕ → Text → ℕ → Db → ℕ × Db
set_hash plant user hash now db = (
  count_where (is_owner_row plant user) db.users,
  record db { users = update_where (is_owner_row plant user) (with_password hash) db.users },
)

after_update :
    (plant user : ℕ) (hash : Text) (rows : ℕ) (t t' : Store)
    → set_hash plant user hash t.now t.db ≡ (rows, t'.db)
    → ((updated_one rows >> log (some plant) (some user) (codes "owner.password_reset") (codes ""))
        t').0
      ≡ ok tt
    → PasswordSet plant user hash t.db
        ((updated_one rows
            >> log (some plant) (some user) (codes "owner.password_reset") (codes ""))
          t').1.db
unfolding set_hash
after_update plant user hash rows t t' e h =
    let entry = log (some plant) (some user) (codes "owner.password_reset") (codes "") in
    let (u, some_row, logged, ends) = >>=-eq-ok (updated_one rows) (λ _. entry) tt t' h in
    let same = updated_one-same rows t' in
    let logged' = rw same at logged in
    let found = updated_one-pos rows t' some_row in
    let counted = ap (λ (p : ℕ × Db). p.0) e in
    let tables = ap (λ (p : ℕ × Db). record p.1 { activity_log = [] }) e in
    (
      λ none_there. found (sym counted ∙ none_there),
      ap (λ (p : Result (Unit {0}) × Store). record p.1.db { activity_log = [] }) ends
          ∙ ap (λ (x : Store). record (entry x).1.db { activity_log = [] }) same
          ∙ log-kept plant user t' logged'
          ∙ sym tables,
    )

store_password-PasswordSet :
    (plant user : ℕ) (hash : Text) (t : Store)
    → (store_password plant user hash t).0 ≡ ok tt
    → PasswordSet plant user hash t.db (store_password plant user hash t).1.db
unfolding store_password set_hash
store_password-PasswordSet plant user hash t h =
    let entry = log (some plant) (some user) (codes "owner.password_reset") (codes "") in
    let update = exec (set_hash plant user hash) in
    let (rows, ran, rest, ends) = >>=-eq-ok update (λ rows. updated_one rows >> entry) tt t h in
    let (e, n) = exec-Executed (set_hash plant user hash) rows t ran in
    rw ends (after_update plant user hash rows t (update t).1 e rest)

module _ {ℓ} {R : Type ℓ} (redis : Redis R) (uuid_text : ℕ → Text) (uuid_parse : Text → Option ℕ)
    (bcrypt : Bcrypt) where
  abbrev pub HashSet : ℕ → Text → ℕ → Db → Db → Type 0
  HashSet plant password user before after =
      (hash : Text) × (hash_password bcrypt password ≡ ok hash)
      × AccountSet plant user hash before after

  stored_reply-done : (r : Result (Unit {0})) → stored_reply r ≡ ResetReply.done → r ≡ ok tt
  stored_reply-done (ok u) h = refl
  stored_reply-done (err e) h = cc

  with_hash-HashSet :
      (plant user : ℕ) (password : Text) (hashed : Result Text) (s : Store)
      → hash_password bcrypt password ≡ hashed
      → (with_hash redis uuid_text uuid_parse bcrypt plant user hashed s).0 ≡ ResetReply.done
      → HashSet plant password user s.db
          (with_hash redis uuid_text uuid_parse bcrypt plant user hashed s).1.db
  unfolding with_hash
  with_hash-HashSet plant user password (err e) s hashing h = cc
  with_hash-HashSet plant user password (ok hash) s hashing h =
      let body = store_password plant user hash in
      let returned = stored_reply-done (with_tenant plant body s).0 h in
      let (t, same, answer, tables) = with_tenant-Ran plant body tt s returned in
      let set = store_password-PasswordSet plant user hash t answer in
      (
        hash,
        hashing,
        subst (λ b. AccountSet plant user hash b (with_tenant plant body s).1.db) same
            (subst (AccountSet plant user hash t.db) (sym tables) (
              updated-AccountSet plant user hash t.db (store_password plant user hash t).1.db set.0
                set.1)),
      )

  for_user-HashSet :
      (plant : ℕ) (password : Text) (user : Result ℕ) (s : Store)
      → (for_user redis uuid_text uuid_parse bcrypt plant password user s).0 ≡ ResetReply.done
      → (id : ℕ) × (user ≡ ok id)
        × HashSet plant password id s.db
            (for_user redis uuid_text uuid_parse bcrypt plant password user s).1.db
  unfolding for_user
  for_user-HashSet plant password (err e) s h = cc
  for_user-HashSet plant password (ok id) s h =
      (id, refl, with_hash-HashSet plant id password (hash_password bcrypt password) s refl h)

  module _ (server : Answers redis) where
    abbrev pub reset : ℕ → ResetForm → Store → R → ResetReply × Store × R
    reset plant form = reset_password redis uuid_text uuid_parse bcrypt (some plant) (some form)

    -- Where Redis answers: a reset that is done was sent the token of a user, which a look at the
    -- link would have shown; there is an account of that user, an owner's or a manager's at this
    -- plant; its password hash was set to the hash of the password that was typed twice, and every
    -- other row and, but for the activity log, every other table is as it was.
    pub reset_password-done :
        (plant : ℕ) (form : ResetForm) (s : Store) (r : R)
        → (reset plant form s r).0 ≡ ResetReply.done
        → (form.new_password ≡ form.confirm)
          × ((user : ℕ) × ((peek redis uuid_text uuid_parse form.token r).0 ≡ ok user)
              × HashSet plant form.new_password user s.db (reset plant form s r).1.db)
    unfolding reset_password with_token
    reset_password-done plant form s r h =
        elim (Bool-cases (is_empty form.new_password || is_empty form.confirm)) [
          | inl gap ↦ let h' = rw gap at h in cc
          | inr full ↦ elim (Bool-cases (text_eq form.new_password form.confirm)) [
            | inr differ ↦ let h' = rw (full, differ) at h in cc
            | inl agree ↦
                let h' = rw (full, agree) at h in
                let user = (consume redis uuid_text uuid_parse form.token r).0 in
                let (id, its, set) = for_user-HashSet plant form.new_password user s h' in
                let looked =
                  ap (λ (p : Result ℕ × R). p.0)
                    (peek_lem redis server uuid_text uuid_parse form.token r)
                  ∙ sym (consume_lem redis server uuid_text uuid_parse form.token r) in
                rw (full, agree)
                  ((text_eq_iff form.new_password form.confirm).0 agree, (id, looked ∙ its, set))
          ]
        ]

    -- Where Redis answers: once a form with a token has passed the checks of its fields, whatever came
    -- of it, the token is spent, and another form with it is told so, at any plant, and changes nothing
    -- in the tables.
    pub reset_password_again :
        (plant other : ℕ) (form later : ResetForm) (s s' : Store) (r : R)
        → later.token ≡ form.token
        → (is_empty form.new_password || is_empty form.confirm) ≡ false
        → text_eq form.new_password form.confirm ≡ true
        → (is_empty later.new_password || is_empty later.confirm) ≡ false
        → text_eq later.new_password later.confirm ≡ true
        → let (_, _, r') = reset plant form s r in
          ((reset other later s' r').0 ≡ ResetReply.invalid_token)
          × ((reset other later s' r').1 ≡ s')
    unfolding reset_password with_token for_user
    reset_password_again plant other form later s s' r token full agree full' agree' =
        let r' = (consume redis uuid_text uuid_parse form.token r).1 in
        let spent =
          consume_spent redis server uuid_text uuid_parse form.token r'
            (consume-text redis server uuid_text uuid_parse form.token r) in
        rw (full, agree, full', agree', token, spent) (refl, refl)
