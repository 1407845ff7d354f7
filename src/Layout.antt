-- ===== src/Layout.antt =====
-- website/components/site-header.tsx, website/components/site-footer.tsx and the navigation of the
-- documentation, website/components/docs/.
pub mod Header
pub mod Footer
pub mod DocsNav
