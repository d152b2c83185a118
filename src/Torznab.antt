-- ===== src/Torznab.antt =====
-- The Torznab side: feeds, the pipeline that every search engine shares, and their aggregation.
pub mod Feed
pub mod Indexer
pub mod Merge
pub mod Api
