-- ===== src/Components.antt =====
-- website/components/: the parts that the pages share.
pub mod Section
pub mod Brand
pub mod CopyButton
pub mod CodeBlock
pub mod Callout
pub mod JsonLd
