-- ===== src/Feeds.antt =====
-- The XML feeds of internal/xmlapi: the downtime feed of rgdowntime.go.
pub mod Listings
pub mod Downtimes
