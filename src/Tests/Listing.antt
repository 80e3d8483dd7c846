-- ===== src/Tests/Listing.antt =====
-- The list functions at concrete inputs.
mod Transactions
