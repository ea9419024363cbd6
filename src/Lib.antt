-- ===== src/Lib.antt =====
-- Openers performance dashboard: the parts of the server that keep state, as functions on tables.
--
-- The program is a Next.js server over a MySQL database. Requests act as an `Actor` (a role, teams, an
-- organization); imports of dialer files are queued as jobs, workers claim and process them, and
-- administrators publish, roll back, restore and deactivate the datasets that come of them; dashboards
-- and commissions read the active datasets. The parts meet in the tables: a job and a dataset version
-- belong to an import batch, an account's row gives the actor its role, and the grants decide which
-- guard lets an actor pass.
--
-- - Prelude (Tests, Lists, Table, Text): Boolean tests, lists, tables as lists of rows with SELECT and
--   UPDATE as functions (select_where, find, select_first, update), keys (IsKeyed), and texts.
-- - Accounts: Role and Actor of src/auth/authorization.ts; profiles, teams and memberships of
--   src/db/schema.ts.
-- - ImportJobs: the queue of src/import/jobs.ts. claim_next is claimNextImportJob (its sweep of exhausted
--   jobs first), Process has actorForJob, heartbeatImportJob and processNextImportJob split at its
--   transactions (complete_job, record_failure), Failure has safeFailure. Events takes each transaction
--   as one step and a run as any list of them, so every interleaving of workers is a list. Invariant,
--   Claims, Events, Leases, Retries and Runs hold the proofs.
-- - Outbox: src/email/outbox.ts. enqueue is enqueueEmailOutbox, claim_next_email is claimNextEmail;
--   Delivery has processNextEmail, split at its transactions, and retryFailedEmail. Events takes each
--   transaction as one step, as above. Invariant, Settled, Runs and Queueing hold the proofs.
-- - Versions: the tables of dataset versions, scopes and batches. Publish, Switch and Deactivate are the
--   transactions of publishDialerImportBatch and switchHistoricalVersions (src/import/service.ts) and of
--   deactivateDialerImportBatch (src/import/active-lifecycle.ts); a transaction that throws gives an
--   error and leaves the old store. hand_over is the group of updates that each of them makes to one
--   scope. View is what readers see of the tables. Consistency, Reads, Published, Switched, Deactivated,
--   Outcome and View hold the proofs.
-- - Access: the permission tables and rules of src/admin/policy.ts (Permissions, Policy), hasPermission of
--   src/auth/permissions.ts, the guards of src/auth/feature-access.ts (Features), the seeded rows of
--   scripts/db-reference-data.ts (Defaults), and of src/admin/data.ts the two changes that
--   assertCanRemoveAdmin guards. Guards, Overrides and Granted hold the proofs.
-- - Commissions: calculateCommission of src/commissions/domain.ts; Tiers holds the proofs.
-- - ManualFlags: updateManualFlagCase of src/operations/service.ts and the transitions of
--   src/operations/domain.ts (`opened` is the status "open"); Cases holds the proofs.
-- - Credentials: src/auth/service.ts, the rules of src/auth/security.ts and src/auth/session.ts. Accept
--   has issueInvitation and acceptInvitation, Reset the password resets, Inspect the inspections of
--   links, SignIn authenticateCredentials, Sessions the sessions. Checks tells what a success has found;
--   Moves and Spent see all requests as steps of the tables of links. Once, Revoked, Agreement, SignIn
--   and SignedIn hold the proofs.
-- - RateLimits: src/auth/rate-limit.ts; Windows holds the proofs.
-- - Flags: src/flags/domain.ts. week_loop is the loop of splitTransferFlagWeeks, with fuel: one turn more
--   than the weeks up to the last day is enough. Weeks and Rows hold the proofs.
-- - Comparison: src/import/versioning.ts; Agents holds the proofs.
-- - Leaderboard: src/leaderboard/ranking.ts and src/leaderboard/sorting.ts; Prelude.Sort is the stable
--   sort of arrays. Ranked, Shown and Fractions hold the proofs.
-- - Csv: how src/dashboard/csv.ts, src/commissions/csv.ts, src/admin/audit-csv.ts and the other exports
--   write cells and lines. Reader is a reader as RFC 4180 describes it; RoundTrip and Formulas hold the
--   proofs.
--
-- Identifiers, names of time zones and scope keys are natural numbers, since the code only compares
-- them. Times are milliseconds. Rows locked by other transactions (SKIP LOCKED) are a predicate that the
-- claim takes. Where the database may return any of several rows that agree in every ORDER BY column, the
-- one that stands first in the table is taken. The parser and persistence that a worker calls
-- (processDialerBatch), and the answers of assertPermission within the version transactions, are
-- arguments. Every loop runs over a list, but for week_loop. Identifiers of audit rows, log lines and
-- notifications are left out.
--
-- Not modelled: rendering and routing (src/app, src/components, src/theme), parsing and storing import
-- files, rejecting and deleting imports, the deletion of users, the retention cleanup (src/cleanup),
-- cookies and ciphers, coaching, the reads of leaderboards, targets and reports, and the wrappers of
-- external services.
pub mod Prelude
pub mod Accounts
pub mod ImportJobs
pub mod Versions
pub mod Access
pub mod Commissions
pub mod ManualFlags
pub mod Outbox
pub mod Csv
pub mod Credentials
pub mod Flags
pub mod RateLimits
pub mod Leaderboard
pub mod Comparison
