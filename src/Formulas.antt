-- ===== src/Formulas.antt =====
-- formulas/: the arithmetic of the concentrated-liquidity pools, over math/big and over
-- uint256, and the constant-product pools.
pub mod MulDiv
pub mod Price
pub mod TickMath
pub mod V2
pub mod V3
