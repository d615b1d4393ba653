-- ===== src/Abi.antt =====
-- internal/abi: the Canonical ABI's layout and flattening of component types, and the loading and
-- storing of their values.
pub mod Layout
pub mod Flatten
pub mod Value
pub mod Memory
