-- ===== src/Table.antt =====
-- apps/web/src/components/data-table: the state of a table, which the URL holds, and the range of
-- rows that the table shows.
pub mod Url
pub mod Range
pub mod Filters
pub mod View
