-- ===== src/Sccp.antt =====
-- passes/sccp: sparse conditional constant propagation.
pub mod Lattice
pub mod Compare
