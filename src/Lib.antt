-- ===== src/Lib.antt =====
-- cpputils, a library of small C++ utilities: what its threading, hashing and path code does.
--
-- The parts, and the files that model them (paths from the repository's root):
-- - threading/cconsumerblockingqueue.h: BlockingQueue. A bounded queue under a mutex; a method is a
--   function of the queue, and what other threads do while a method has let go of the mutex is an
--   argument (`others`, `rounds`, `wakeups`).
-- - threading/cthreadpool.h and .cpp: ThreadPool, on top of the queues, its lanes. Tags is the map of
--   owner tags, with addresses for the raw pointers into it; State the pool's shared state and the
--   critical sections; Steps the interleaving of `enqueue`, the workers, `retire` and the drains of
--   `finishAllThreads` and `abandonAllThreads` by any number of threads; Stealing is `tryGetTask`,
--   Worker a round of `runWorker`. Idle is the loop of the workers from their start: how they park,
--   who wakes them, and how they end (Idle/Quiet and Idle/Stopping); Drain runs
--   the drain of `finishAllThreads` with the tasks that are enqueued meanwhile.
-- - threading/cthreadpool.h, `ParallelBatchState`: Batch; Batch/Parallel is `parallelFor` and
--   `parallelForAsync`, which share a batch between the caller and helper tasks, with the caller's
--   wait for `done` under its mutex.
-- - threading/cexecutionqueue.h: ExecutionQueue. A task is an arbitrary effect on the queue.
-- - threading/cperiodicexecutionthread.cpp: PeriodicThread, its methods and `threadFunc`, cut where
--   the thread takes the mutex or gives it back, with the notifications.
-- - hash/sha3.c, hash/sha3.h, hash/sha3_hasher.hpp: Sha3. Keccak is the permutation, Keccak/Fips the
--   standard's text of it, Context the sponge and the hasher class, Sponge the standard's text of the
--   hash; Bits has the laws of the operators on words.
-- - utility_functions/memory_functions.cpp: Memory, `memfind`.
-- - system/storagespeed.cpp: StorageSpeed, the choice of the mount that holds a path, the resolution
--   of links and the cache; Tables the texts of mountinfo and of the firmlinks; Windows the lookup of
--   a volume there; Devices the query of a volume's speed on each platform; Lookup the way from a path
--   to an answer on Linux and macOS.
-- - system/shellcontextmenu.cpp, `CoInitHelper` of system/win_utils.hpp: ShellMenu, each function as
--   the calls of the shell that it makes, the destructors' among them; Resources says which calls are
--   legal when; Messages is `forwardMenuMessages`.
-- - debugger/debugger_is_attached.cpp, system/processfilepath.cpp, system/win_utils.cpp,
--   system/timing.cpp, `setThreadName`: System.
-- - timing/ctimeelapsed.h: Timing. timing/profiler.h and .cpp: Profiler, the registry of counters, and
--   Profiler/Scopes, the timeline, marks and scopes; Profiler/Reports, `reportCounters`.
-- - threading/thread_helpers.cpp: CpuCount, the constructor and the grouping of cores; Linux, Windows
--   and Others what `CpuCount::get` makes of the system's answers.
-- - threading/cinterruptablethread.h and .cpp: InterruptableThread.
-- - system/cpuinfo.cpp: CpuInfo, the processor's name in /proc/cpuinfo.
-- - math/cmeancounter.h: MeanCounter, over any arithmetic. lang/enum.h: Enum.
-- Base has the shared helpers, Tests runs on concrete inputs.
--
-- Names are the source's in this library's spelling (`tryGetTask` is `try_get_task`). Machine words
-- wrap around as written (`add64`, `sub64`, `add32`).
--
-- Bounds and fuel: `push` and the waits take the list of what others do, one entry a round;
-- `drain_indices` has fuel for its rounds, of which `count + 1` are enough; `search` in `memfind` has
-- one round for each offset at which the needle fits; `scan` has one for each byte of the path and
-- one more, and `hops` the source's 40. Each bound is the one that the code itself observes or is
-- shown to be enough: the doubling in `allowedLinuxCpus` makes 22 rounds at most, the loop of
-- `windowsCpuSets` one for each byte, the drain two passes over the lanes for each task and one more.
-- Counters of tasks and indices are taken to fit a `size_t`, as a premise of the
-- step that increments.
--
-- Arguments that stand for code outside the repository: `Math::FastMod32` (`lane_mod`), `memory_cast`,
-- `std::filesystem` lexical normalisation, reading a link, floating-point arithmetic, and the calls of
-- the system, as records of what it answers (`SystemCalls`, `WindowsSystem`, `CpuFiles`,
-- `Affinity`, `LinuxSystem`, `MacSystem`, `Shell`).
--
-- Not modelled: the promise of `enqueueWithFuture`; the rest of `setThreadName` and the exit handler,
-- which pass their arguments on to the system; how a logged line is written out; assertions. In
-- ShellMenu memory does not run out, and reports of assertions are left out.
pub mod InterruptableThread
pub mod Enum
pub mod MeanCounter
pub mod Base
pub mod BlockingQueue
pub mod ThreadPool
pub mod Batch
pub mod ExecutionQueue
pub mod Sha3
pub mod Memory
pub mod StorageSpeed
pub mod PeriodicThread
pub mod Timing
pub mod Profiler
pub mod CpuInfo
pub mod CpuCount
pub mod ShellMenu
pub mod System
pub mod Tests
