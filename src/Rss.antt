-- ===== src/Rss.antt =====
-- modules/rss: the feeds.
pub mod Ids
