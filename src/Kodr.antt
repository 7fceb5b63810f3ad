-- ===== src/Kodr.antt =====
-- kodr: random linear network coding, over an arbitrary field of characteristic two.
pub mod Matrix
pub mod Elimination
pub mod Data
pub mod State
pub mod Full
pub mod Systematic
