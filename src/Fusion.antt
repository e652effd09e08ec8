-- ===== src/Fusion.antt =====
-- pkg/fusion: the router (router.go), the parts of the consolidator (consolidator.go) and the
-- engine (engine.go).
pub mod Router
pub mod Scoring
pub mod Dedup
pub mod Fuse
pub mod Merge
pub mod Engine
