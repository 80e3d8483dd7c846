-- ===== src/Shell/Cache.antt =====
-- apps/web/src/hooks/use-treasury.ts: the keys of the queries, and what a mutation that succeeded
-- makes stale. The cache is a list of queries with their keys; that `invalidateQueries` marks the
-- queries whose key starts with the given one is what TanStack Query documents.
use opentreasury.Prelude.{Bool, true, false, ◌||◌, List, [], ◌∷◌, Option, ◌≡◌, refl, map}
use opentreasury.Prelude.Text.{Text, codes, same}
use opentreasury.Platform.Number.{Number}
use opentreasury.Api.Accounts.{AccountListFilter}
use opentreasury.Api.AuditEvents.{AuditEventListFilter}
use opentreasury.Api.Balances.{BalanceListFilter}
use opentreasury.Api.Commitments.{CommitmentListFilter}
use opentreasury.Api.Institutions.{InstitutionListFilter}
use opentreasury.Api.Journal.{JournalEntryListFilter}
use opentreasury.Api.Reconciliation.{ReconciliationListFilter}
use opentreasury.Api.Staging.{StagingListFilter}
use opentreasury.Api.Transactions.{TransactionListFilter}

-- The parts of a key behind its first text.
pub data Rest : Type 0 where
  accounts : AccountListFilter → Rest
  journal_entries : JournalEntryListFilter → Rest
  balances : BalanceListFilter → Rest
  staging_records : StagingListFilter → Rest
  forecast : Option Text → Number → Rest
  anomalies : Option Text → Number → Number → Rest
  commitments : CommitmentListFilter → Rest
  reconciliation : ReconciliationListFilter → Rest
  health : Rest
  transactions : TransactionListFilter → Rest
  audit_events : AuditEventListFilter → Rest
  all_institutions : Rest
  institutions : InstitutionListFilter → Rest

-- `queryKey[0]` of the hook whose key has the given rest.
unfoldable pub family : Rest → Text
family (accounts filter) = codes "accounts"
family (journal_entries filter) = codes "journal-entries"
family (balances filter) = codes "balances"
family (staging_records filter) = codes "staging-records"
family (forecast institution_id horizon) = codes "insights-forecast"
family (anomalies institution_id page page_size) = codes "insights-anomalies"
family (commitments filter) = codes "commitments"
family (reconciliation filter) = codes "reconciliation"
family health = codes "health"
family (transactions filter) = codes "transactions"
family (audit_events filter) = codes "audit-events"
family all_institutions = codes "institutions"
family (institutions filter) = codes "institutions"

-- A query of the cache.
pub record Cached : Type 0 where
  pub key : Rest
  pub stale : Bool

-- `invalidateQueries({ queryKey: [name] })`
unfoldable pub invalidate_queries : Text → List Cached → List Cached
unfolding family
invalidate_queries name [] = []
invalidate_queries name (query ∷ cache) =
    record query { stale = same (family query.key) name || query.stale }
    ∷ invalidate_queries name cache

-- `onSuccess` of the mutations.
unfoldable pub created_commitment : List Cached → List Cached
unfolding invalidate_queries
created_commitment cache = invalidate_queries (codes "commitments") cache

unfoldable pub posted_journal_entry : List Cached → List Cached
unfolding invalidate_queries
posted_journal_entry cache =
    invalidate_queries (codes "audit-events")
      (invalidate_queries (codes "balances") (invalidate_queries (codes "journal-entries") cache))

unfoldable pub created_transaction : List Cached → List Cached
unfolding invalidate_queries
created_transaction cache =
    invalidate_queries (codes "audit-events") (invalidate_queries (codes "transactions") cache)

-- The queries that a new posting changes: the lists of entries, balances and audit events.
unfoldable pub shows_postings : Rest → Bool
shows_postings (journal_entries filter) = true
shows_postings (balances filter) = true
shows_postings (audit_events filter) = true
shows_postings _ = false

-- A query with the stale mark added where its key is one of the given ones.
abbrev pub mark : (Rest → Bool) → Cached → Cached
mark is_one query = record query { stale = is_one query.key || query.stale }

-- A posted entry makes exactly the lists of entries, of balances and of audit events stale, for
-- every filter and page, and leaves every other query of the cache as it was.
pub posted_journal_entry_lem :
    (cache : List Cached) → posted_journal_entry cache ≡ map (mark shows_postings) cache
unfolding posted_journal_entry invalidate_queries family shows_postings same
posted_journal_entry_lem [] = refl
posted_journal_entry_lem (query ∷ cache) =
    λ i. step query.key query.stale i ∷ posted_journal_entry_lem cache i
  where
    marked : Rest → Bool → Cached
    marked key stale = record {
      key = key;
      stale =
          same (family key) (codes "audit-events")
          || (same (family key) (codes "balances")
              || (same (family key) (codes "journal-entries") || stale));
    }

    step :
        (key : Rest) (stale : Bool)
        → marked key stale ≡ mark shows_postings (record { key = key; stale = stale })
    step (accounts filter) stale = refl
    step (journal_entries filter) stale = refl
    step (balances filter) stale = refl
    step (staging_records filter) stale = refl
    step (forecast institution_id horizon) stale = refl
    step (anomalies institution_id page page_size) stale = refl
    step (commitments filter) stale = refl
    step (reconciliation filter) stale = refl
    step health stale = refl
    step (transactions filter) stale = refl
    step (audit_events filter) stale = refl
    step all_institutions stale = refl
    step (institutions filter) stale = refl
