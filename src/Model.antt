-- ===== src/Model.antt =====
-- internal/model: the rows of the tables, and the database that holds them.
pub mod Time
pub mod User
pub mod Verification
pub mod Product
pub mod Order
pub mod Grant
pub mod Code
pub mod Database
pub mod Node
pub mod Fleet
pub mod Admin
