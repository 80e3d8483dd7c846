-- ===== src/Tests.antt =====
-- The theorems at concrete inputs.
mod Data
mod Listing
mod Verify
mod Api
mod Table
mod Clients
mod Pages
mod Screens
mod Forms
mod Shell
