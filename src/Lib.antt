-- ===== src/Lib.antt =====
-- Verification of the mlakp backend: the ledger (money, expenses, debts and payments), the accounts
-- (users, sessions, one-time passwords), the groups, and the rate limiter.
--
-- A group member records an expense (internal/expenses); every participant but the payer then owes
-- him a debt, which the debtor accepts or rejects and a group owner may send back (internal/debts); the
-- debtor marks payments against accepted debts, one by one or in bulk, and the creditor confirms or
-- rejects them (internal/payments). Amounts are int64 minor units (internal/money). Each component has
-- a service, which validates its input and notifies, over a repository, which runs SQL statements
-- (internal/postgres/sqlc) on shared tables. Users register and log in with a password (internal/users,
-- internal/auth/password.go), prove their address with a one-time password (internal/otp) and stay
-- logged in by refresh tokens (internal/sessions); an owner adds members to a group (internal/groups).
-- The routes for authentication stand behind a rate limiter (internal/httpapi/middleware).
--
-- Base holds the shared notation and the lemmas on lists, tests and results; Text models the string
-- functions of Go's library that the services call, Decimal the decimal numbers of strconv and fmt,
-- Uuid the printing of identifiers (formatUUID).
-- Money models internal/money/money.go: parse_minor is ParseMinor, format_minor FormatMinor,
-- split_equal SplitEqual and validate_manual_split ValidateManualSplit.
-- Store holds the tables, the server and the driver: an Action is a call that may change the world and
-- returns a value or an error, exec a statement, transaction the Begin, Commit and deferred Rollback of
-- a method. Store.Spec has triples over actions, Store.Invariants, Store.Keeps and
-- Store.Leads what a whole call keeps or leads to, Store.Outside the rules for the clock and the random
-- bytes of the process (Host).
-- Sql models the statements: Sql.Debts and Sql.Expenses those of expenses.sql.go, Sql.Payments those
-- of payments.sql.go, each named as the generated method, with the table constraints of
-- migrations/20260505000400_expenses.up.sql and migrations/20260505000500_payments.up.sql; Sql.Sessions
-- those of auth_sessions.sql.go, Sql.Users of users.sql.go, Sql.Groups of groups.sql.go, and
-- Sql.Verifications the texts in internal/otp/repository.go. Sql.Keys is about unique columns.
-- Ledger states the invariant of the tables (IsLedger), and relates each statement to it.
-- Payments, Debts and Expenses model the packages of these names: Repository the methods of
-- repository.go, Validation (and Expenses.Shares) the validation of service.go, and Service its
-- methods; the definitions have the names of the Go functions. Expenses.Repository.Spec says what is to
-- be in the tables for a new expense. Sessions, Otp, Users and Groups are built
-- in the same way; their modules Steps (Members in Groups) have the requests to the service and the
-- worlds that a sequence of them reaches. RateLimit models middleware/rate_limit.go (allow, Limit),
-- RateLimit.Spec a bucket for each client by itself. Service puts the ledger's services on one
-- database and runs sequences of requests. Samples is a small ledger for the modules Tests.
--
-- Bounds and fuel. A number is a natural number, or an integer (ℤ) where the code can see a negative
-- one. Sums and products of int64 keep their wrap-around (% 2 ^ 64). The loops of the code are
-- structural (the digits of a one-time password by those that are missing); the digits of a number n
-- are produced with fuel n, which is enough since each step divides by ten.
--
-- Assumptions. Transactions run one after another: their row locks (FOR UPDATE) are what the code
-- takes to have them so. A commit that reports an error may have gone through or not. A text is
-- the sequence of its code points. A clock may go back between two calls, unless a statement says
-- otherwise. Parameters are the server (which statements fail, which commits go through all the
-- same, the ids that it draws, its clock), scan (the scanning of a UUID), to_upper, request_uri
-- and parse_date (of Go's library), lower (of the database), the order of a Go map, the encoding
-- and the fingerprint of tokens, bcrypt_hash and bcrypt_compare, the driver's reading and
-- printing of UUIDs (uuid_text, text_uuid), the process's clock and random bytes, and whether a
-- service has a notifier, whose errors the services drop.
--
-- Not modelled: the reading endpoints and their listing queries, the search for users, access tokens,
-- the dashboard, the delivery of notifications, the HTTP layer but for the rate limiter,
-- configuration and email.
pub mod Base
pub mod Debts
pub mod Decimal
pub mod Expenses
pub mod Groups
pub mod Ledger
pub mod Money
pub mod Otp
pub mod Payments
pub mod RateLimit
pub mod Samples
pub mod Service
pub mod Sessions
pub mod Sql
pub mod Store
pub mod Text
pub mod Users
pub mod Uuid
