-- ===== src/Home.antt =====
-- website/components/home/.
pub mod CallToAction
pub mod CodeShowcase
pub mod Comparison
pub mod FaqPreview
pub mod Isolation
pub mod StackMarquee
pub mod UseCasePreview
pub mod Workflow
pub mod Hero
pub mod ArchitectureBeam
pub mod FeatureBento
