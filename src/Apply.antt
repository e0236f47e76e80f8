-- ===== src/Apply.antt =====
-- The apply step of an approved proposal (internal/handlers/proposals.go): one function for each
-- entity kind, and the dispatch over them. Every function takes the database as the transaction
-- sees it, and returns the new one or the error that rolls the transaction back.
pub mod Change
pub mod Contacts
pub mod Hierarchy
pub mod Resources
pub mod Catalogue
pub mod VoContacts
pub mod Vos
pub mod Stale
pub mod Dispatch
pub mod Sequence
pub mod Guards
pub mod Bundles
pub mod VoWalk
pub mod VoAncestors
pub mod Payload
pub mod SupportCenters
pub mod ResolvedContacts
pub mod ContactSlots
