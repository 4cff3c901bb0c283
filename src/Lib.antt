-- ===== src/Lib.antt =====
-- A simulated operating system: an assignment with a multilevel queue scheduler and paged memory.
-- The files named are below assignment_source_hk231, unless it says otherwise, in the configuration
-- of include/os-cfg.h: MLQ_SCHED with 140 priorities, MM_PAGING, and the locks of SYNC_SCHED and
-- SYNC_MM on.
--
--   Prelude, Totals  what the other modules share: names, tests, lists, bits, sums over
--                    a table
--   Pte     the entries of a page table: the bit macros of include/mm.h and include/bitops.h, and
--           init_pte, pte_set_swap, pte_set_fpn of src/mm.c; Pte.Masks has the macros with their masks
--   Memphy  a physical memory, src/mm-memphy.c, and __swap_cp_page of src/mm.c
--   Status  the error codes of include/mm.h
--   Mm      the descriptor of a process, include/os-mm.h: its page table and queue of present pages,
--           init_mm, enlist_tail_pgn_node, vmap_page_range of src/mm.c, find_victim_page and
--           count_available_victim of src/mm-vm.c
--   Paging  where the descriptor, RAM and swap change together: pg_getpage, bring_to_ram, pg_getval,
--           pg_setval of src/mm-vm.c, alloc_pages_range and vm_map_ram of src/mm.c
--   Vm      the regions of a process, src/mm-vm.c: pgalloc, pgfree_data, pgread, pgwrite, with
--           __alloc, get_free_vmrg_area, increase_vma_limit, __free, __read and __write
--   Cpu     one instruction of a process, run of src/cpu.c
--   Os      one round of a CPU, cpu_routine of src/os.c
--   Simulator  cpu_routine, ld_routine and main of src/os.c as threads, over Sched, Os and Timer
--   Config  the configuration file, read_config of src/os.c
--   Loader  a process file, src/loader.c
--   Scan    what fscanf of the standard library does for Config and Loader
--   Timer   the clock that steps the threads, src/timer.c
--   System  the processes on the memories that they share: main and ld_routine of src/os.c with run
--   Queue   the process queue, src/queue.c
--   Sched   the scheduler, src/sched.c
--   Pool    the thread pool of the course's exercise, TA section/BKthreadpool of the repository
--
-- State is a record that each function takes and gives back; pointers to outputs are results. A
-- list that the code links is a List, an array a function of the index or a List. Numbers are
-- natural numbers; where a sign or a width matters, the definition says how. A function that holds
-- a lock from its first access to its last is one step, so interleavings of such calls are
-- sequences of calls. Loops are recursion on the rounds that are left, which the code bounds
-- itself, so no fuel is chosen.
--
-- Valid (Paging.Valid) is the invariant of memory: the queue of a process holds exactly its pages
-- in RAM, no frame is held twice or is free while it is held, and the frames of other processes, a
-- parameter, are apart. contents (Paging.Place) is the abstract view: the byte at an offset of a
-- page, wherever the page is. Keeps says that neither changes for any process. RAM is at most 1024
-- frames in a valid machine, since PAGING_FPN reads 10 bits, and swap at most 2 ^ 21. IsMlq
-- (Sched.Invariant) is the invariant of the scheduler. IsSpace (Vm.Space) is that of the memory of
-- a process: it is Valid, the regions of its symbols and its free regions do not overlap (IsArea,
-- counted in Vm.Owners), and the pages below the end of the area are the ones that are mapped.
--
-- Threads are step relations (Step of Timer.Steps, Simulator.Steps and Pool.Threads), and a theorem
-- on the states that can be reached is one on every interleaving of their steps. The threads of
-- Pool hold no lock; there a step is one access to what they share, in the order of the program, as
-- on a machine with sequentially consistent memory. A wait on a condition is a step that is
-- possible when the loop around the wait would end. Counts that the code does not keep, such as the
-- slots that a device has left, are fields beside its own, and no step depends on them. IsTimer
-- (Timer.Invariant) says where each device is by the place of the timer; IsClocked
-- (Simulator.Clock) that each thread of the simulator is where its device says; IsPlaced
-- (Simulator.Places) that the processes are counted by the queues, the CPUs and the lists of what
-- has finished or was dropped; IsServed (Simulator.Served) that while a process waits, some thread
-- will look for it; IsPool (Pool.Holds) that a worker holds a task of the list, or a part of one
-- while it is assigned and the worker waits. A weight is any function from the processes to
-- numbers; with the weight that is 1 at one process and 0 elsewhere it counts that process.
--
-- A file is a list of characters, and what a variable holds before it is read is a parameter, since
-- malloc does not clear it. The theorems on files quantify over the white space (gap, end) between
-- their parts.
--
-- Not modelled: src/mem.c and src/paging.c with the functions of src/cpu.c before run, which are
-- not compiled in with MM_PAGING or not called; the functions that only print; in the thread pool,
-- the creation of the threads and signals from elsewhere. The steps of Simulator keep of run only
-- the step of pc; what run does to the memories is Cpu and System, where the calls come one after
-- another, as on one CPU. IsSystem (System.Invariant) says that the memory of each process is in
-- order, with the frames of the others as the foreign ones.
pub mod Prelude
pub mod Pte
pub mod Memphy
pub mod Status
pub mod Totals
pub mod Mm
pub mod Paging
pub mod Queue
pub mod Sched
pub mod Vm
pub mod Cpu
pub mod Os
pub mod Timer
pub mod Loader
pub mod Scan
pub mod Pool
pub mod Simulator
pub mod Config
pub mod System
