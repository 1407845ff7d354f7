-- ===== src/Architecture.antt =====
-- website/components/architecture/: the failure modes and the orbiting stack.
pub mod FailureModes
pub mod OrbitingStack
pub mod RepoTree
