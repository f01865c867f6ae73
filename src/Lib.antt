-- ===== src/Lib.antt =====
-- A kernel module that compares sorting algorithms: /dev/xoroshiro128p fills an array by a random
-- generator and sorts copies of it.
--
-- The parts, and the modules that model them:
-- - heap.c, `sort_heap`: `Swap` has the exchange of two elements over the bytes of an object
--   (`is_aligned`, `swap_words_32`, `swap_words_64`, `swap_bytes`, `do_swap`); `Heap` has `parent`,
--   `sort_r` and `sort_heap` over the elements of the array. The loops of `sort_r` are functions of
--   their own: `descend`, `backtrack`, `shift` and `sort_loop`. `Heap.Index` is the same sort over
--   element indices, in which its proofs are done.
--   `Swap.Elements` says that the exchange of bytes is the exchange of elements.
-- - pdqsort.c: `Pdqsort` has the small sorts, under their names in the source, and
--   `Pdqsort.Partition` the partitions; `Pdqsort.Loop` has `pdqsort_loop` and `sort_pdqsort`.
-- - intro.c: `Intro` has the last pass of `sort_intro`, the whole sort for up to 16 elements, and
--   `Intro.Quick` the quicksort in front of it, with its stack. `Fallback` is the heap sort that
--   intro.c and pdqsort.c have in common.
-- - xoroshiro128plus.c: `Xoroshiro` has the state `s[2]` as a record, `seed`, `next` and `jump`.
-- - sort.h, as main.c instantiates it for `uint64_t`: `Template` has the comparisons, `Template.Networks`
--   the sorting networks, `Template.Small` BITONIC_SORT, `Template.Insertion` the binary insertion
--   sort, `Template.Simple` the selection and the bubble sort, `Template.Shell` the shell sort and
--   `Template.Heapsort` the heap sort, `Template.Quick` the quicksort and `Template.Merge` the
--   merge sort with a buffer. `Template.Tim` is the timsort: `Template.Tim.Runs` has the runs,
--   `Template.Tim.Merge` the merges, `Template.Tim.Stack` the stack; its proofs are under
--   `Template.Timsort`. `Template.Minrun` has the length of the runs. A call on a pointer into the
--   array is a call on a slice, `Array.Slice`. `Template.Stable` is the recursive stable sort, with
--   the rotation, the searches and the merge without a buffer of the grail sort. A network is a
--   list of pairs of positions; `Template.Bitonic` decides whether one sorts.
-- - main.c: `Compare` has the comparators, and `Device` the file operations `dev_open`, `dev_read` and
--   `dev_release`; the mutex is an interface, and `Device.History` has the reachable states.
--   `Device.Comparison` runs `dev_read` with its 17 sorts. `Module` has `xoro_init` and `xoro_exit`,
--   as the calls that take and give back resources.
--
-- `Base` has the shared names, `Run` the ways in which a call ends (a value, an access outside the
-- object, the end of the fuel), `Array` the array as the list of its elements, `Words` the 64-bit
-- arithmetic and the laws of the bit operations, and `Tests` runs and examples.
--
-- A comparator is a parameter: a function into the integers that orders the elements by a key, a
-- natural number. Elements have a fixed size, so every total preorder on them has such a key. The
-- caller's swap function is a parameter too. A loop runs on fuel, and the theorems say that the
-- fuel is enough: each loop of sort.h starts with as many rounds as its range has elements or
-- more, each other loop with more rounds than the array has elements, and the main loop of `sort_r`
-- with more than twice as many. The quicksort of `sort_intro` has two rounds for each
-- element, and `pdqsort_loop` one for each element of its range and one more. The loop of the
-- timsort has two rounds for each element and four more, and TIM_SORT_COLLAPSE one for each run.
-- GRAIL_REC_MERGE calls itself at most as deep as its runs have elements.
--
-- An allocation is an argument where its failure matters: the buffers of the sorts in `dev_read`, the
-- runs and the storage of the timsort, the stack of `sort_intro`, and the heap sort that it and pdqsort.c
-- fall back on.
--
-- Not modelled: what the merge sort in place, the sqrt sort and the grail sorts of sort.h do with more
-- than 16 elements, a parameter; `Template.Short` has their branches for fewer, which `dev_read` takes;
-- the code under `#if 0` in pdqsort.c; the clock and the logging of
-- the kernel; the user-space programs test_xoro.c and benchmark.c.
pub mod Base
pub mod Run
pub mod Words
pub mod Array
pub mod Heap
pub mod Compare
pub mod Swap
pub mod Fallback
pub mod Pdqsort
pub mod Intro
pub mod Template
pub mod Xoroshiro
pub mod Device
pub mod Module
mod Tests
