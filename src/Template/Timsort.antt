-- ===== src/Template/Timsort.antt =====
-- sort.h: the timsort sorts. `Template.Tim` has its functions, whose parts are under it.
pub mod Invariant
pub mod Depth
pub mod Collapse
pub mod Push
pub mod Sorts
