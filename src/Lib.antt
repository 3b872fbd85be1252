-- ===== src/Lib.antt =====
-- Forkscan: automated memory reclamation for concurrent data structures, and this repository's
-- version of it that sorts through an AVL tree. Paths are from the root of the repository.
--
-- The program. Threads retire pointers into a private circular queue (forkscan-changed/queue.c,
-- frontend.c). A full queue makes a thread the reclaimer (thread.c), which hands the pointers to the
-- garbage-collector thread (forkscan.c). That thread gathers them in one buffer (buffer.c, alloc.c),
-- stops the others by a signal (proc.c), and forks. The child sorts the addresses (avl.c, util.c),
-- scans memory for references to them and marks what it finds (child.c). Unmarked addresses are then
-- freed by the threads (util.c).
--
-- The model. An array is a list of numbers read by native indices; an access outside it, a NULL
-- dereference, a failed assertion and an exit are faults of the type `Run` (Prelude/Outcome.antt).
-- Addresses and counters are numbers. The counters of the queues wrap at 2 ^ 64 as in C; sums of
-- addresses and lengths do not, since mapped memory ends far below 2 ^ 64, and neither do the `int`
-- indices of arrays. Memory that the child reads, `malloc`, `malloc_usable_size`, the lines of
-- /proc/self/maps and the address of a lock of the C library are parameters.
--
-- File Prelude.antt and below: shared names, lists as arrays (Lists), tests (Tests), outcomes
--   (Outcome).
-- File Avl.antt and below: forkscan-changed/avl.c and avl.h. Defs has each C function under its
--   own name: a tree is a value, since each node is owned by one pointer, and an update returns
--   the new tree; the answer of `malloc` is the parameter `mem`. Entries reads a tree as the
--   list of its entries; Balance, Insert, Lookup and Build prove.
-- File Sort.antt and below: `forkscan_util_avl_sort`, `write_to_array` and
--   `forkscan_util_compact` of forkscan-changed/util.c. The loops recur on the rounds left,
--   which the code fixes on entry.
-- File Queue.antt and below: forkscan-changed/queue.c and queue.h. `memcpy` is written out as a
--   copy of cells that faults outside either array; the indices are taken modulo 2 ^ 64.
-- File Buffer.antt and below: forkscan-changed/buffer.h and buffer.c: the struct (Defs), the
--   lists of buffers in a store of numbered buffers (Lists, Chain), the queue of retiree buffers
--   (Retire), aggregates (Aggregate) and the dead references (Dead, DeadList, DeadRefs). Loops
--   over a list run on fuel above the number of buffers.
-- File Alloc.antt and below: forkscan-changed/alloc.c: the list of mapped blocks, the subranges
--   between them, and the calls that map and unmap memory (Map, RoundTrip).
-- File Scan.antt and below: the child process, forkscan-changed/child.c. Memory and
--   `malloc_usable_size` are parameters. `binary_search` runs on fuel above the length of its
--   range, `recursive_mark` on fuel above the number of unmarked addresses.
-- File Ranges.antt and below: the ranges of memory to scan, `collect_ranges`, `is_lib` and
--   `add_stack_ranges` of forkscan-changed/child.c. The loops run on fuel above the length of
--   what is left.
-- File Collector.antt and below: forkscan-changed/forkscan.c: the minimap of the collector's
--   buffer (Minimap) and the addresses kept for the next round (Survivors). Gather is the code
--   that gathers the addresses of a collection in one buffer: Contents reads the addresses of a
--   list of buffers and has the two loops, Kept what the making of a buffer leaves alone, Same
--   stores that agree on a list, Ready the choice of the buffer, Aggregate the whole function.
--   Its loops run on fuel above the number of buffers, and the counts are taken as below the
--   limits of size_t and int.
-- File Bench.antt and below: the array of nodes of the benchmark forkscan_test/main.c: add,
--   remove_node and contains as atomic accesses that any threads interleave, with no bound on
--   the keys. The numbers of nodes are never used again, while memory that is freed may be.
--   Places gives each node one place, Moves follows it through the steps, Retired has the
--   result.
-- File Env.antt and below: the parameters of forkscan-changed/env.c on 32-bit patterns: the
--   digits of the bitwise or (Or), the rounding to a power of two (Smear), the bounds (Bounds)
--   and the settings (Settings).
-- File Free.antt and below: `forkscan_util_free_ptrs` of forkscan-changed/util.c as steps that
--   the threads interleave in any order: what a step sees of a buffer (View), the invariant of
--   the ranges (Invariant, Steps), and that each retired address is freed at most once (Once).
-- File Frontend.antt and below: generate_working_pointers_list of forkscan-changed/frontend.c,
--   with which a reclaimer moves the retired pointers of all threads to one buffer. The thread
--   list is the list of the threads' queues; the threads are taken as not pushing meanwhile.
--   Gather follows the loop; Whole shows that the limit of the buffer is never met.
-- File Handoff.antt and below: the hand-over of buffers to the collector thread:
--   forkscan_initiate_collection and forkscan_thread of forkscan-changed/forkscan.c, as steps of
--   the collector thread and of any number of clients. A section under a mutex is one step, so
--   is a read of the counter outside it; a call of reclaim_iteration is one step too, and the
--   collector thread may wake up without a signal, while a client waits for its broadcast.
--   Invariant has the runs and the clients, Safety the collector thread, Progress the waking up
--   of clients.
-- File Lock.antt and below: the reclaimer's lock, forkscan-changed/thread.c from
--   `global_timestamp` on and `forkscan_proc_wait_for_timestamp` of forkscan-changed/proc.c, as
--   atomic accesses that the threads interleave in any order (Run).
-- File Lookup.antt and below: the lookaside list of the child, `addr_find_hint` and
--   `lookup_lookaside_list` of forkscan-changed/child.c: the search from a hint (Hint), buffers
--   with marks (Marked), one value (Found), the loop (Loop), the list after sort and compaction
--   (Compacted), and all of it (Whole).
-- File Pool.antt and below: the pools of equal blocks, `DEFINE_POOL_ALLOC` of
--   forkscan-changed/metautil.h, and the pool of stacks of forkscan-changed/buffer.c.
-- File Quick.antt and below: `swap`, `partition`, `insertion_sort`, `quicksort`,
--   `forkscan_util_sort` and `forkscan_util_randomize` of forkscan-changed/util.c. The recursion
--   runs on fuel above the length.
-- File Threads.antt and below: the records of the threads: the thread list and the list of
--   exited threads of forkscan-changed/util.c, registration and signals of
--   forkscan-changed/proc.c, and the end of a thread in forkscan-changed/thread.c. Chain reads
--   the linked lists; Registry adds and finds, Remove takes out, Exit ends a thread, Signal
--   counts signals. Searches run on fuel above the length of the list.
--
-- Not modelled: the roots of child.c, the fork and the waits of reclaim_iteration in forkscan.c, the
-- start of threads in thread.c, the map of memory in proc.c, retiring and the calls of the interface in
-- frontend.c, the free lists of util.c; the wrapped library calls (wrappers.c, sleep.c), which are glue
-- around the system; and the program sort_test.c and the drivers of forkscan_test, which measure the
-- library. The lock (Lock), the freeing (Free), the hand-over (Handoff) and the benchmark's array (Bench)
-- interleave threads; everywhere else a function is one step, and those of buffer.c hold a mutex meanwhile.
pub mod Prelude
pub mod Avl
pub mod Sort
pub mod Queue
pub mod Buffer
pub mod Alloc
pub mod Scan
pub mod Ranges
pub mod Collector
pub mod Bench
pub mod Env
pub mod Free
pub mod Frontend
pub mod Handoff
pub mod Lock
pub mod Lookup
pub mod Pool
pub mod Quick
pub mod Threads
