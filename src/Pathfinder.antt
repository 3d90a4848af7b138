-- ===== src/Pathfinder.antt =====
-- pathfinder/: the routes between tokens and the swap steps that they become.
pub mod QuotePath
pub mod Route
pub mod Adjacency
pub mod Merge
pub mod Splitter
pub mod Encode
pub mod Search
