-- ===== src/Base.antt =====
-- The names that the other modules share: the libraries', passed on, and those of the children.
pub mod Tests
pub mod Lists
pub mod Text
pub mod GoMap
pub mod Int
pub mod Outcome
pub mod Flow
pub mod Select
