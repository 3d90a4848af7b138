-- ===== src/Tests.antt =====
-- Examples: the theorems at concrete states, and the definitions evaluated on small inputs.
mod Statedb
mod Formulas
mod V3
mod Search
mod Pathfinder
mod Splitter
