-- ===== src/Lib.antt =====
-- GatsToGo, a multi-tenant shop for cooking gas: plants sell tickets online and at the counter, staff
-- dispense them at pumps, customers look up their receipts. The state is in PostgreSQL, and what is
-- short-lived in Redis.
--
-- How the code maps to this library. A table is a list of row records, and the database is one record
-- of tables (Db.Schema, from migrations/0001_init_schema.up.sql, 0007 and 0008). A function that takes
-- a tenantdb.Querier is an action of the monad Db.Statement.M: it runs against a Store, which holds
-- the tables, whether a transaction is open or has failed, which of the statements to come fail by
-- themselves, the tenant's setting and the time of now(). A failed statement in a transaction makes
-- PostgreSQL refuse the later ones, and so it does here. Go's errors are the constructors of Error.
-- Identifiers, times in microseconds and positive amounts in kobo are numbers; signed amounts are
-- integers; strings are lists of code points. What the database, crypto/rand or a form's number
-- parsing chooses is an argument.
--
-- - Base: the library names and shared lemmas; Db.Table: the SQL forms; Db.Table.Distinct: unique
--   indexes; Db.Table.First: ORDER BY … LIMIT 1; Db.Table.Found: what a search found;
--   Db.Statement.Keeps and Takes: the rules for invariants of actions; Db.Statement.Returns: lemmas
--   on actions that returned.
-- - Tenant: internal/tenantdb/tenantdb.go (WithTenant) and internal/audit/audit.go (Log);
--   Tenant.Returns: lemmas on a function that returned in a transaction.
-- - Tickets: internal/tickets/tickets.go. Money has the price conversions, Reference the references,
--   codes and initials, Phone the reduction of phone numbers, Purchase the INSERT and its six attempts
--   at a code (a recursion on the attempts that are left), Lifecycle redeeming and the transitions,
--   Receipts the lookups of customers and pumps. History is the specification: the edges of a
--   ticket's status, what a sale fixes, and what a whole table may become.
-- - Shifts: internal/shifts/shifts.go. PinLimiter, StaffList, Lifecycle (opening, closing, tokens) and
--   Cash (totals and manual movements).
-- - Pumps: internal/pumps/pumps.go. Board lists them, Assignment gives a ticket its pump, Admin checks
--   the pump of a shift and edits pumps.
-- - Hours: internal/hours/hours.go, the status of the moment. Host: the tests on the Host header in
--   internal/middleware/tenant.go.
-- - Checkout: cmd/server/tickets.go. Buy is the form, Payment the callback and the webhook, which call
--   Tickets and Pumps inside WithTenant, and Cancel the void handler.
-- - Terminal: cmd/server/terminal.go, its handlers for a code and for closing tickets; Dispensing
--   starts a ticket at its pump and asks for a review, CashSale sells at the counter, Managing changes
--   pumps, staff and prices, and Shift signs in with a PIN, signs out and ends a shift. They compose
--   Tickets, Pumps, Shifts, Reviews, Prices and Staff inside WithTenant with the sessions in Redis.
-- - Redis: the commands that the packages send, as a record, and what they rely on of a server that
--   answers and on which no key runs out meanwhile, as a record of laws; Redis.Memory is a server with
--   these laws. ReceiptCodes: internal/receipts/receipts.go. ReceiptPages: cmd/server/receipts.go, which joins the codes and the sessions.
-- - Session: internal/session/session.go; Session.Refinement: its specification, a map from tokens to
--   sessions; Session.Guards: the guards of internal/middleware/session.go. Csrf:
--   internal/csrf/csrf.go and internal/middleware/csrf.go.
-- - Auth: internal/auth/password.go and checkIPRateLimit of cmd/server/accounts.go. PasswordReset:
--   internal/passwordreset/passwordreset.go. SignIn: cmd/server/auth.go, with Owner, Admin and
--   Forgotten for the handlers.
-- - Reviews: internal/reviews/reviews.go, with its five attempts at a token, and Reviews.Form:
--   cmd/server/reviews.go. Prices: internal/prices/prices.go.
-- - Staff: internal/staff/staff.go, with bcrypt's two functions as arguments.
-- - Examples: small tables, and each theorem with hypotheses applied to them.
--
-- Not modelled: foreign keys and row-level security; the JSON of audit rows; HTTP, the attributes of
-- cookies, templates and labels; the clients for Paystack, mail and SMS, whose answers are arguments;
-- bcrypt, HMAC-SHA256, the JSON form of a session and the text of an identifier, which are arguments
-- too; float64, which the price conversions leave exact below 2 ^ 52; the wrap-around of int64 in
-- sums, although the INSERT of a ticket refuses what its columns do not hold; the expiry of Redis
-- keys, which only the passing of time brings about; the packages for plants, buyers and migrations;
-- and the handlers of cmd/server other than those named above.
pub mod Base
pub mod Error
pub mod Db
pub mod Tenant
pub mod Redis
pub mod Tickets
pub mod Terminal
pub mod Shifts
pub mod Pumps
pub mod Hours
pub mod Host
pub mod Checkout
pub mod Staff
pub mod Csrf
pub mod Auth
pub mod PasswordReset
pub mod Prices
pub mod Reviews
pub mod Session
pub mod SignIn
pub mod ReceiptCodes
pub mod ReceiptPages
pub mod Examples
