-- ===== src/Lib.antt =====
-- The verification library of opentreasury, a public treasury ledger. It is about the TypeScript
-- clients: the library that the web client calls the core API with, its demo mode, its pages with
-- their tables, filters, forms and dialogs, its sign-in and its frame, the screens of the mobile
-- client, and the verification of Merkle proofs in both.
--
-- The parts, and the files that model them:
--   Prelude and its children: shared names, tests, lists, integers, texts. No code of the
--   repository.
--   Platform and its children: what the code uses of JavaScript. A string is a list of UTF-16 code
--   units; a number is NaN or an integer (amounts are integers in minor units, and years, pages and
--   sizes are integers). The sums of the amounts of an entry are rounded as doubles are
--   (Platform.Sum); elsewhere numbers are taken to stay below 2 ^ 53. `String(n)` of these numbers,
--   `slice`, `sort`, `URLSearchParams` with its encoding, and `encodeURIComponent` are functions by
--   clauses. Where amounts are typed or divided, a number is a Double: Platform.Double has the IEEE
--   doubles with their rounding, Double.Literal is `Number(text)` and `trim`, and Double.Cents and
--   Double.Literal.Laws are about amounts with two decimals.
--   Api: apps/web/src/api.ts with history.ts, audit.ts and institutions.ts beside it. Page is
--   `pageWindow`, `paginate` and `fallbackPageInfo`; Params is how a path is built; Request is how
--   a list is requested and its reply read; Post the same for posting; Filter the tests of the demo
--   mode. A module per kind of row (Transactions, AuditEvents, Institutions, Accounts, Journal,
--   Balances, Staging, Commitments, Reconciliation) has the types, the path (`build_..._path`), the
--   demo rows, the filters (`matching_...`) and the list function (`list_...`). Its child Listing
--   proves what is listed and what a server reads from the path; for transactions, whose filter
--   Transactions.Proper describes, the second is in Transactions.Sent. Transactions.Validation,
--   Journal.Posting and Commitments.Creation are the operations that post; AuditEvents.Rows is the
--   audit feed; Transactions.Rows and Institutions.Rows are the rows of their tables;
--   Journal.Draft is the dialog of apps/web/src/routes/journal.tsx, with the edits of its lines in
--   Lines and its other fields in Fields; Proofs is `fetchEntryProof`, Health the health check with
--   health.ts, and Insights `getAnomalies` and the request of `getForecast`.
--   Verify: apps/mobile/src/lib/verify.ts. Canonical and Injective are about the canonical string,
--   Binding about what a verified response binds, Tree about Merkle trees as its specification, and
--   Web and Dialog are apps/web/src/components/verify-entry.tsx.
--   Table: apps/web/src/components/data-table. Url is the state that use-table-url-state.ts keeps in
--   the URL, Range the range of rows in data-table.tsx, View the table with the buttons of its
--   footer, Filters the controls of filters.tsx.
--   Pages: apps/web/src/routes. A module per page (Transactions, Audit, Accounts, Balances,
--   Institutions, Ingestion, Reconciliation, Commitments, Journal, Insights, Overview) has its
--   columns, the filter of its request (`api_filter`) and the page as a function of the query of the
--   URL. Commitments.Dialog is the dialog of commitments.tsx. Events is about the URL after an event
--   of a control, Amounts about the filter of amounts, from its fields to the URL, Demo about a walk through the pages of the demo mode.
--   Forms: apps/web/src/transaction.ts, the filter form of history.ts, and routes/validation.tsx.
--   Shell: the frame, that is, under apps/web/src, i18n.ts, stores/theme.ts, app-sidebar.tsx,
--   language-toggle.tsx and health-indicator.tsx of components, routes/index.tsx with
--   components/app-shell.tsx (Routes), and hooks/use-treasury.ts (Cache).
--   Mobile: apps/mobile/src/lib/api.ts, format.ts and entries.ts; Explorer, EntryScreen, Institutions
--   and Overview are the screens in apps/mobile/src/app. Money is about the text of an amount.
--   Auth: apps/web/src/stores/auth.ts; Gate is login-gate.tsx and user-menu.tsx of
--   apps/web/src/components.
--   Tests: the theorems at concrete inputs.
--
-- How the parts interact: a list function takes its filter from the table's state, builds a path
-- and reads the reply, or, without a configured server, filters and pages the demo rows. Both give
-- a ListResult, which the page gives to its table: the rows, the total of the footer, or the error.
-- A control hands its choice to the page, which changes the query of the URL by `set_filter`. The
-- dialogs make the input of the functions that post, and their outcome is the next state of the
-- dialog: Journal.Draft.Demo and Commitments.Dialog.Demo put the two together. The proof of an
-- entry comes from `fetch_entry_proof`, and the verification of the web client reads it.
--
-- Parameters: `fetch` is a function from a request to a reply, so that a theorem about it holds for
-- whatever the network does; SHA-256 is a function on bytes or on texts, without any law, and what
-- a proof binds is stated up to a collision; `Date.parse` is the test whether it gives NaN; the
-- integers that `Number(raw)` gives for the URL are a function on texts; the clock, what the OIDC
-- library gives, the texts of the translations, the format of amounts in the locale, and the print
-- of fractions are arguments. React Router is a function from the updates of an event to the change
-- of the query; useInfiniteQuery is the record InfiniteQuery of what it does with the functions of
-- the screen; a hook of TanStack Query is what it gives for a filter. The settings of the build and
-- the access token are the record Env. Promises are modelled by their results, and the demo rows
-- that `createCommitment` changes are passed as state.
--
-- Recursion is structural, but for numbers. The digits of a number have the number plus one as
-- their fuel, which is more than it has digits (Platform/Decimal). The rounding of a fraction to a
-- double looks through the 1075 powers of two from 1 to 2 ^ 1074, the unit of the least double,
-- and through the 1025 ones up to 2 ^ 1024, above the greatest (Platform/Double).
--
-- Not modelled: amounts with a fraction of a minor unit in an entry, and a filter of the URL with the
-- name `__proto__`, which a plain object does not store; the services in Go, the markup and the
-- styles of both clients, the components copied from shadcn/ui, the demo forecast with its square
-- roots, and how charts are drawn.
mod Prelude
pub mod Platform
pub mod Api
pub mod Verify
pub mod Table
pub mod Mobile
pub mod Pages
pub mod Forms
pub mod Shell
pub mod Auth
mod Tests
