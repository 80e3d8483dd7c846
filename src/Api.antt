-- ===== src/Api.antt =====
-- apps/web/src/api.ts with the path builders of audit.ts, history.ts and institutions.ts: the
-- client of the core API and the demo mode that stands in for it. Each child models one group of
-- functions.
pub mod Page
pub mod Params
pub mod Request
pub mod Post
pub mod Filter
pub mod Transactions
pub mod AuditEvents
pub mod Institutions
pub mod Accounts
pub mod Journal
pub mod Balances
pub mod Staging
pub mod Commitments
pub mod Reconciliation
pub mod Proofs
pub mod Health
pub mod Insights
