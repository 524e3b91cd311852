-- ===== src/Feature.antt =====
-- lib/lib_features.c, the feature evaluators. A feature reads one sniff against the container of its
-- evaluator item and gives the amount to count.
pub mod Monad
pub mod Sequence
pub mod Plain
pub mod Media
pub mod Src
pub mod Dst
pub mod Table
pub mod Spec
pub mod Loads
pub mod PlainCounts
pub mod MediaCounts
pub mod Counts
pub mod Keeps
pub mod Loss
mod Tests
