-- ===== src/Heap/Offsets.antt =====
-- heap.c on byte offsets against the reference on indices.
pub mod Scale
pub mod Parent
pub mod Loops
pub mod Sort
