-- ===== src/CpuCount/Windows/Rounds.antt =====
-- The loop of `windowsCpuSets` comes to its end.
use cpputils.Base.{
  ℕ, zero, suc, ◌+◌, ◌-◌, List, [], ◌∷◌, ◌++◌, not, ◌||◌, if◌then◌else◌, ltb, ◌==◌, length, u32_mod,
  some, ◌≤◌, ◌<◌, length-append, ◌≡◌, Bool-cases, Option-cases, inl, inr, arith,
}
use cpputils.CpuCount.Windows.{
  WindowsSystem, Information, CpuSet, collect, windows_cpu_sets, buffer_size,
}

-- Each round takes at least one byte of the buffer, so that enough rounds bring the loop to its end,
-- with no more CPU sets than there are bytes.
collect-returns :
    (fuel : ℕ) (info : ℕ → Information) (required offset : ℕ) (sets : List CpuSet)
    → required ≤ offset + fuel
    → length sets ≤ offset
    → offset ≤ required
    → (r : List CpuSet) × (collect fuel info required offset sets ≡ some r) × (length r ≤ required)
unfolding collect
collect-returns zero info required offset sets h few le = (sets, ground arith, ground arith)
collect-returns (suc fuel) info required offset sets h few le =
    let size = (info offset).size in
    let next = if (info offset).is_cpu_set then sets ++ ((info offset).cpu_set ∷ []) else sets in
    let longer = length-append sets ((info offset).cpu_set ∷ []) in
    elim (Bool-cases (ltb offset required)) [
      | inr past ↦ (sets, ground arith, ground arith)
      | inl inside ↦ elim (Bool-cases ((size == 0) || ltb (required - offset) size)) [
        | inl bad ↦ ([], ground arith, ground arith)
        | inr good ↦
            let (r, e, short) =
              collect-returns fuel info required (offset + size) next (ground arith)
                (ground (arith, longer)) (ground arith) in
            (r, ground arith, short)
      ]
    ]

-- `windowsCpuSets` returns, whatever sizes stand in the buffer.
pub windows_cpu_sets-returns :
    (os : WindowsSystem)
    → buffer_size os < u32_mod
    → (r : List CpuSet) × (windows_cpu_sets os ≡ some r) × (length r < u32_mod)
unfolding windows_cpu_sets
windows_cpu_sets-returns os fits = elim (Option-cases os.system_cpu_set_information) [
  | inl e ↦ ([], ground arith, ground arith)
  | inr (call, e) ↦
      elim (Bool-cases
        (call.succeeds_with_no_buffer || not call.insufficient_buffer || (call.required == 0))) [
          | inl bad ↦ ([], ground arith, ground arith)
          | inr good ↦ elim (Option-cases call.filled) [
            | inl f ↦ ([], ground arith, ground arith)
            | inr ((returned, info), f) ↦
                let (r, c, short) =
                  collect-returns returned info returned 0 [] (omega arith) (omega arith)
                    (omega arith) in
                (r, ground arith, ground arith)
          ]
        ]
]
