-- ===== src/Pdqsort/Insertion.antt =====
-- The insertion sorts of pdqsort.c.
pub mod Sift
pub mod Sorts
pub mod Partial
