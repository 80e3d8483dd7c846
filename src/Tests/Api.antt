-- ===== src/Tests/Api.antt =====
-- The operations of the API client at concrete inputs.
mod Post
mod Draft
mod Lists
