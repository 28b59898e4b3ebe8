-- ===== src/Tickets/Purchase/Collision.antt =====
-- internal/tickets/tickets.go: the retry loop of Purchase, on a pool and in a transaction.
use gatstogo.Base.{ℕ, suc, zero, ◌<◌, ◌≡◌, refl, ◌∙◌, true, false, Option, List, Text, arith}
use gatstogo.Error.{in_failed_transaction, no_unique_code, Result, ok, err}
use gatstogo.Db.Schema.{Db}
use gatstogo.Db.Statement.{connected}
use gatstogo.Tickets.Reference.{new_reference}
use gatstogo.Tickets.Purchase.{PurchaseParams, allocate, purchase, max_code_attempts}
use gatstogo.Tickets.Purchase.Attempts.{
  InRange, IsTaken, allocate_again, allocate_aborted, purchase-allocate,
}

allocate_all_taken :
    (p : PurchaseParams) (reference : Text) (wall id now : ℕ) (db : Db) (scope : Option ℕ)
    (left : ℕ) (random : ℕ → Result ℕ)
    → InRange p
    → ((k : ℕ) → k < left → IsTaken p reference wall id false scope now db (random k))
    → allocate left p reference wall id random (connected false scope now db)
      ≡ (err no_unique_code, connected false scope now db)
unfolding allocate
allocate_all_taken p reference wall id now db scope zero random h taken = refl
allocate_all_taken p reference wall id now db scope (suc left) random h taken =
    allocate_again p reference wall id false scope now db left random refl h (taken 0 (omega arith))
    ∙ allocate_all_taken p reference wall id now db scope left (λ k. random (suc k)) h
        (λ k lt. taken (suc k) (omega arith))

module _ (p : PurchaseParams) (bytes : List ℕ) (random : ℕ → Result ℕ) (wall id : ℕ)
    (scope : Option ℕ) (now : ℕ) (db : Db) {reference : Text} where
  -- On a pool, with a size and amounts in range, Purchase gives up when its six codes are all taken,
  -- and inserts nothing.
  pub purchase_exhausted :
      InRange p
      → new_reference p.plant_slug (ok bytes) ≡ ok reference
      → ((j : ℕ)
          → j < max_code_attempts
          → IsTaken p reference wall id false scope now db (random j))
      → purchase p (ok bytes) random wall id (connected false scope now db)
        ≡ (err no_unique_code, connected false scope now db)
  purchase_exhausted h e taken =
      purchase-allocate p bytes random wall id false scope now db e
      ∙ allocate_all_taken p reference wall id now db scope 6 random h taken

  -- In a transaction, with a size and amounts in range, one collision is final: whatever codes the
  -- later attempts would try, the second INSERT is refused, because the first has left the
  -- transaction failed.
  pub purchase_collision_in_transaction :
      (m : ℕ)
      → InRange p
      → new_reference p.plant_slug (ok bytes) ≡ ok reference
      → IsTaken p reference wall id true scope now db (random 0)
      → random 1 ≡ ok m
      → purchase p (ok bytes) random wall id (connected true scope now db)
        ≡ (err in_failed_transaction, record (connected true scope now db) { aborted = true })
  purchase_collision_in_transaction m h e taken r =
      purchase-allocate p bytes random wall id true scope now db e
      ∙ allocate_aborted p reference wall id true scope now db 4 m random refl h taken r
