-- ===== src/Tests.antt =====
-- Runs of the model on small inputs, and each theorem with hypotheses at such an input.
mod Samples
mod Swap
mod Heap
mod Pdqsort
mod Intro
mod Xoroshiro
mod Buffers
mod Device
mod Module
mod Template
mod Stable
