-- ===== src/Warp/Split.antt =====
-- The selective split list (warp/split_merge.py, warp/split_analysis.py).
pub mod Net
pub mod Exclude
pub mod Collapse
pub mod Order
pub mod Merge
pub mod Sources
pub mod Analysis
