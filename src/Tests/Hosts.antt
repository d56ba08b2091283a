-- ===== src/Tests/Hosts.antt =====
-- threading/thread_helpers.cpp: a Linux machine with two processors on one core and one on another,
-- and a Windows machine with one group of two processors.
use cpputils.Base.{
  ℕ, ◌+◌, ◌≡◌, List, [], ◌∷◌, none, some, true, false, ltb, leb, ◌==◌, arith, if◌then◌else◌, codes,
}
use cpputils.CpuCount.Linux.{Affinity, allowed, too_small, CpuFiles, allowed_linux_cpus}
use cpputils.CpuCount.Windows.{
  WindowsSystem, CpuSet, Information, BufferCall, GroupMask, windows_cpu_sets,
}
use cpputils.CpuCount.Linux
use cpputils.CpuCount.Windows
use cpputils.CpuCount.Results.{IsConsistent, linux_get-IsConsistent, windows_get-IsConsistent}

-- The kernel asks for a set of 2048 bits.
abbrev three_allowed : ℕ → Affinity
three_allowed bits = if ltb bits 2048 then too_small else allowed (λ cpu. ltb cpu 3)

abbrev two_cores : CpuFiles
two_cores = record {
  core_cpus_list = λ cpu. if cpu == 2 then none else some (codes "0-1");
  thread_siblings_list = λ cpu. some (codes "2");
  cpu_capacity = λ cpu. some (if cpu == 2 then 446 else 1024);
}

linux_get-IsConsistent_example :
    (cpus : List ℕ) × (allowed_linux_cpus three_allowed 3 ≡ some cpus)
    × IsConsistent (Linux.get two_cores cpus 3)
linux_get-IsConsistent_example =
    linux_get-IsConsistent two_cores three_allowed 3 3 (omega arith) (omega arith)

abbrev set_of : ℕ → CpuSet
set_of i = record {
  id = 256 + i;
  group = 0;
  logical_processor_index = i;
  core_index = 0;
  relative_performance = 0;
  allocated_elsewhere = false;
}

abbrev two_processors : WindowsSystem
two_processors = record {
  active_group_count = 1;
  active_processor_count = λ group. 2;
  process_group_affinity = some (0 ∷ []);
  thread_group_affinity = some (record { group = 0; mask = 3 });
  process_affinity_mask = some 3;
  process_default_cpu_sets = none;
  system_cpu_set_information = some (record {
    succeeds_with_no_buffer = false;
    insufficient_buffer = true;
    required = 64;
    filled = some (
      64,
      λ offset. record {
        size = 32;
        is_cpu_set = true;
        cpu_set = set_of (if leb 32 offset then 1 else 0);
      },
    );
  });
  hardware_concurrency = 2;
}

windows_get-IsConsistent_example :
    (sets : List CpuSet) × (windows_cpu_sets two_processors ≡ some sets)
    × IsConsistent (Windows.get two_processors sets)
windows_get-IsConsistent_example =
    windows_get-IsConsistent two_processors (omega arith) (omega arith)
