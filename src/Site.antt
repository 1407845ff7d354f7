-- ===== src/Site.antt =====
-- website/lib/site.ts, website/lib/metadata.ts and the tables of website/lib/content.ts and
-- website/lib/faq.ts.
pub mod Config
pub mod Content
pub mod Metadata
