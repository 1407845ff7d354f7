-- ===== src/Pages.antt =====
-- website/app/: the pages and their layouts.
pub mod NotFound
pub mod DocsLayout
pub mod DocsFaq
pub mod FirstVirtualCluster
pub mod Installation
pub mod Operations
pub mod Security
pub mod Concepts
pub mod HostOnboarding
pub mod Troubleshooting
pub mod ApiReference
pub mod RootLayout
pub mod Home
pub mod Quickstart
pub mod UseCases
pub mod Architecture
pub mod DocsOverview
pub mod Announced
