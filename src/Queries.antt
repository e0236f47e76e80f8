-- ===== src/Queries.antt =====
-- internal/db: the SQL statements of the workflow, as functions on the database.
pub mod Contacts
pub mod Entities
pub mod Catalogue
pub mod Proposals
