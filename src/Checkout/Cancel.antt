-- ===== src/Checkout/Cancel.antt =====
-- cmd/server/tickets.go: ticketVoidHandler, up to its redirect, which is the same whatever happens.
use mathlib.Core.Option
use gatstogo.Base.{ℕ, some, [], ◌∷◌, Text, codes, trim_space}
use gatstogo.Db.Schema.{TicketRow}
use gatstogo.Db.Table.{find_where}
use gatstogo.Db.Statement.{M, query_row, ◌>>=◌, ◌>>◌}
use gatstogo.Tenant.{with_tenant, log}
use gatstogo.Tickets.Lifecycle.{void}
use gatstogo.Tickets.Receipts.{has_reference}

unfoldable pub void_reason : Text → Text
unfolding trim_space
void_reason reason = elim (trim_space reason) [ [] ↦ codes "Voided by owner" | c ∷ s ↦ c ∷ s ]

-- The function that WithTenant runs.
unfoldable pub void_in_tenant : ℕ → ℕ → Text → Text → M (Unit {0})
unfolding query_row find_where void void_reason log ◌>>=◌
void_in_tenant plant actor reference reason = do
  id ← query_row (λ db.
      Option.map (λ (t : TicketRow). t.id) (find_where (has_reference plant reference) db.tickets))
  void plant id actor (void_reason reason)
  log (some plant) (some actor) (codes "ticket.voided") reference

unfoldable pub ticket_void : ℕ → ℕ → Text → Text → M (Unit {0})
unfolding with_tenant void_in_tenant
ticket_void plant actor reference reason =
    with_tenant plant (void_in_tenant plant actor reference reason)
