-- ===== src/CpuCount/Windows.antt =====
-- threading/thread_helpers.cpp on Windows: the masks of the processors that the process may use, the
-- CPU sets, and `CpuCount::get`. The calls of the system are fields of a record.
pub mod Rounds
use Prim.Native.Nat.{bit_and, bit_or}
use cpputils.Base.{
  ℕ, zero, suc, ◌+◌, ◌-◌, ◌/◌, ◌^◌, ◌%◌, List, [], ◌∷◌, ◌++◌, Bool, false, not, ◌&&◌, ◌||◌,
  if◌then◌else◌, ltb, leb, ◌==◌, length, max, add32, u32_mod, u64_mod, Option, none, some, keep_if,
  map, ◌≤◌, ◌<◌, length-append, ◌≡◌, Bool-cases, Option-cases, inl, inr, arith,
}
use cpputils.CpuCount.{CpuCount, create, distinguishable_performance_classes}
use cpputils.CpuCount.Cores.{Entry, add_processor, cores_of}

-- `GroupMasks`, in the order of insertion.
pub record GroupMask : Type 0 where
  pub group : ℕ
  pub mask : ℕ

pub record CpuSet : Type 0 where
  pub id : ℕ
  pub group : ℕ
  pub logical_processor_index : ℕ
  pub core_index : ℕ
  pub relative_performance : ℕ
  pub allocated_elsewhere : Bool

-- A `SYSTEM_CPU_SET_INFORMATION` as it stands at an offset of the buffer.
pub record Information : Type 0 where
  pub size : ℕ
  pub is_cpu_set : Bool
  pub cpu_set : CpuSet

-- A call that is made with no buffer, to learn the size, and again with one; `none`: that fails.
pub record BufferCall (A : Type 0) : Type 0 where
  pub succeeds_with_no_buffer : Bool
  pub insufficient_buffer : Bool
  pub required : ℕ
  pub filled : Option A

pub record WindowsSystem : Type 0 where
  pub active_group_count : ℕ
  pub active_processor_count : ℕ → ℕ
  pub process_group_affinity : Option (List ℕ)
  pub thread_group_affinity : Option GroupMask
  pub process_affinity_mask : Option ℕ
  pub process_default_cpu_sets : Option (BufferCall (List ℕ))
  pub system_cpu_set_information : Option (BufferCall (ℕ × (ℕ → Information)))
  pub hardware_concurrency : ℕ

abbrev find_mask : ℕ → List GroupMask → Option ℕ
find_mask group [] = none
find_mask group (m ∷ ms) = if m.group == group then some m.mask else find_mask group ms

-- `emplace`: a group that is there keeps its mask.
abbrev emplace : ℕ → ℕ → List GroupMask → List GroupMask
emplace group mask ms = elim (find_mask group ms) [
  | none ↦ ms ++ (record { group = group; mask = mask } ∷ [])
  | some m ↦ ms
]

-- `masks[group] = f(masks[group])`, where a new group has the mask 0.
abbrev pub assign : ℕ → (ℕ → ℕ) → List GroupMask → List GroupMask
assign group f [] = record { group = group; mask = f 0 } ∷ []
assign group f (m ∷ ms) =
    if m.group == group then record m { mask = f m.mask } ∷ ms else m ∷ assign group f ms

unfoldable active_processor_mask : WindowsSystem → ℕ → ℕ
active_processor_mask os group =
    let count = os.active_processor_count group in
    if count == 0 then 0 else (if leb 64 count then u64_mod - 1 else 2 ^ count - 1)

abbrev pub emplace_active : WindowsSystem → List ℕ → List GroupMask → List GroupMask
unfolding active_processor_mask
emplace_active os [] ms = ms
emplace_active os (group ∷ groups) ms =
    emplace_active os groups (emplace group (active_processor_mask os group) ms)

abbrev emplace_primary : WindowsSystem → List GroupMask → List GroupMask
emplace_primary os [] = elim os.thread_group_affinity [ none ↦ [] | some m ↦ m ∷ [] ]
emplace_primary os (m ∷ ms) = m ∷ ms

unfoldable process_affinity_masks : WindowsSystem → List GroupMask
process_affinity_masks os =
    let groups = elim os.process_group_affinity as (λ _. List ℕ) [ none ↦ [] | some gs ↦ gs ] in
    let masks = emplace_primary os (emplace_active os groups []) in
    elim os.process_affinity_mask [
      | none ↦ masks
      | some mask ↦ elim os.thread_group_affinity [
        | none ↦ masks
        | some primary ↦ assign primary.group (λ _. mask) masks
      ]
    ]

unfoldable process_default_cpu_set_ids : WindowsSystem → List ℕ
process_default_cpu_set_ids os = elim os.process_default_cpu_sets [
  | none ↦ []
  | some call ↦
      if call.succeeds_with_no_buffer || not call.insufficient_buffer || (call.required == 0)
      then []
      else elim call.filled [ none ↦ [] | some ids ↦ ids ]
]

-- The loop over the buffer, for so many rounds; `none` where rounds run out.
unfoldable pub collect : ℕ → (ℕ → Information) → ℕ → ℕ → List CpuSet → Option (List CpuSet)
collect zero info required offset sets = if ltb offset required then none else some sets
collect (suc fuel) info required offset sets =
    let size = (info offset).size in
    let rest =
      collect fuel info required (offset + size)
        (if (info offset).is_cpu_set then sets ++ ((info offset).cpu_set ∷ []) else sets) in
    if ltb offset required
    then (if (size == 0) || ltb (required - offset) size then some [] else rest)
    else some sets

-- How many bytes the system has put into the buffer, a `ULONG`.
abbrev pub buffer_size : WindowsSystem → ℕ
buffer_size os = elim os.system_cpu_set_information as (λ _. ℕ) [
  | none ↦ 0
  | some call ↦ elim call.filled as (λ _. ℕ) [ none ↦ 0 | some r ↦ r.0 ]
]

unfoldable pub windows_cpu_sets : WindowsSystem → Option (List CpuSet)
unfolding collect
windows_cpu_sets os = elim os.system_cpu_set_information [
  | none ↦ some []
  | some call ↦
      if call.succeeds_with_no_buffer || not call.insufficient_buffer || (call.required == 0)
      then some []
      else elim call.filled [
        | none ↦ some []
        | some (returned, info) ↦ collect returned info returned 0 []
      ]
]

abbrev pub bit : ℕ → ℕ → Bool
bit mask i = ((mask / 2 ^ i) % 2) == 1

abbrev is_selected : ℕ → List ℕ → Bool
is_selected id [] = false
is_selected id (x ∷ xs) = (x == id) || is_selected id xs

abbrev selected_masks : List ℕ → List CpuSet → List GroupMask → List GroupMask
selected_masks ids [] ms = ms
selected_masks ids (s ∷ ss) ms = selected_masks ids ss (
    if is_selected s.id ids && not s.allocated_elsewhere
    then assign s.group (λ (m : ℕ). bit_or m (2 ^ s.logical_processor_index)) ms
    else ms)

abbrev restricted : List GroupMask → List GroupMask → List GroupMask
restricted affinity ms =
    map
      (λ (m : GroupMask). record m {
        mask =
            bit_and m.mask
              (elim (find_mask m.group affinity) as (λ _. ℕ) [ none ↦ 0 | some a ↦ a ]);
      })
      ms

abbrev or_else : List GroupMask → List GroupMask → List GroupMask
or_else affinity [] = affinity
or_else affinity (m ∷ ms) = m ∷ ms

-- `applyProcessDefaultCpuSets`: what `affinityMasks` is after it.
unfoldable apply_process_default_cpu_sets : List ℕ → List GroupMask → List CpuSet → List GroupMask
apply_process_default_cpu_sets [] affinity sets = affinity
apply_process_default_cpu_sets (id ∷ ids) affinity sets = or_else affinity (
    keep_if (λ (m : GroupMask). not (m.mask == 0))
      (restricted affinity (selected_masks (id ∷ ids) sets [])))

abbrev pop_count : ℕ → ℕ → ℕ
pop_count zero mask = 0
pop_count (suc n) mask = (if bit mask n then 1 else 0) + pop_count n mask

abbrev pub affinity_count : List GroupMask → ℕ
affinity_count [] = 0
affinity_count (m ∷ ms) = add32 (pop_count 64 m.mask) (affinity_count ms)

abbrev pub is_available : List GroupMask → CpuSet → Bool
is_available masks s = not s.allocated_elsewhere && elim (find_mask s.group masks) as (λ _. Bool) [
  | none ↦ false
  | some mask ↦ bit mask s.logical_processor_index
]

abbrev pub same_core : ℕ × ℕ → ℕ × ℕ → Bool
same_core a b = (a.0 == b.0) && (a.1 == b.1)

-- The loop over the CPU sets: `logicalProcessorCount` and `cores`.
unfoldable pub add_cpu_sets :
    List GroupMask → List CpuSet → ℕ → List (Entry (ℕ × ℕ)) → ℕ × List (Entry (ℕ × ℕ))
unfolding add_processor
add_cpu_sets masks [] count cores = (count, cores)
add_cpu_sets masks (s ∷ ss) count cores =
    add_cpu_sets masks ss (if is_available masks s then add32 count 1 else count) (
      if is_available masks s
      then add_processor same_core (s.group, s.core_index) s.relative_performance cores
      else cores)

abbrev all_groups : WindowsSystem → ℕ → List GroupMask → List GroupMask
unfolding active_processor_mask
all_groups os zero ms = ms
all_groups os (suc n) ms = emplace n (active_processor_mask os n) (all_groups os n ms)

abbrev masks_or_all : WindowsSystem → List GroupMask → List GroupMask
unfolding active_processor_mask
masks_or_all os [] = all_groups os os.active_group_count []
masks_or_all os (m ∷ ms) = m ∷ ms

unfoldable pub available_masks : WindowsSystem → List CpuSet → List GroupMask
unfolding process_affinity_masks process_default_cpu_set_ids apply_process_default_cpu_sets
    active_processor_mask
available_masks os sets =
    apply_process_default_cpu_sets (process_default_cpu_set_ids os)
      (masks_or_all os (process_affinity_masks os)) sets

-- What is returned for `affinityLogicalProcessorCount`, `hardware_concurrency()` and what the loop
-- over the CPU sets came to.
unfoldable pub result_of : ℕ → ℕ → ℕ × List (Entry (ℕ × ℕ)) → CpuCount
unfolding create distinguishable_performance_classes
result_of affinity hardware (count, cores) =
    let fallback = if affinity == 0 then max 1 hardware else affinity in
    if count == 0
    then create fallback fallback []
    else create count (length (cores_of cores) % u32_mod)
        (distinguishable_performance_classes (cores_of cores))

-- `CpuCount::get` with the list that `windowsCpuSets` returned.
unfoldable pub get : WindowsSystem → List CpuSet → CpuCount
unfolding result_of add_cpu_sets available_masks
get os sets =
    let masks = available_masks os sets in
    result_of (affinity_count masks) os.hardware_concurrency (add_cpu_sets masks sets 0 [])
