-- ===== src/CpuCount/Others.antt =====
-- threading/thread_helpers.cpp: `CpuCount::get` on macOS, and on systems that are neither that nor
-- Windows nor Linux.
use cpputils.Base.{
  ℕ, ◌<◌, ◌≡◌, refl, [], Option, none, some, ◌==◌, if◌then◌else◌, max, arith, u32_mod,
}
use cpputils.CpuCount.{CpuCount, create}
use cpputils.CpuCount.Results.{IsConsistent, uniform-IsConsistent}

-- `fallbackLogicalProcessorCount`, from `std::thread::hardware_concurrency()`.
unfoldable pub fallback_logical_processor_count : ℕ → ℕ
fallback_logical_processor_count hardware_concurrency = max 1 hardware_concurrency

-- `macLogicalProcessorCount`; `none`: `sysctlbyname` fails.
unfoldable pub mac_logical_processor_count : Option ℕ → ℕ → ℕ
unfolding fallback_logical_processor_count
mac_logical_processor_count none hardware_concurrency =
    fallback_logical_processor_count hardware_concurrency
mac_logical_processor_count (some count) hardware_concurrency =
    if count == 0 then fallback_logical_processor_count hardware_concurrency else count

unfoldable pub get_on_mac : Option ℕ → ℕ → CpuCount
unfolding mac_logical_processor_count create
get_on_mac logical_cpu hardware_concurrency =
    let count = mac_logical_processor_count logical_cpu hardware_concurrency in
    create count count []

unfoldable pub get_elsewhere : ℕ → CpuCount
unfolding fallback_logical_processor_count create
get_elsewhere hardware_concurrency =
    let count = fallback_logical_processor_count hardware_concurrency in create count count []

-- On macOS and elsewhere there is one processor at least and the counts fit together, whatever the
-- system says within 32 bits.
pub others-IsConsistent :
    (logical_cpu : Option ℕ) (hardware_concurrency : ℕ)
    → ((count : ℕ) → logical_cpu ≡ some count → count < u32_mod)
    → hardware_concurrency < u32_mod
    → IsConsistent (get_on_mac logical_cpu hardware_concurrency)
      × IsConsistent (get_elsewhere hardware_concurrency)
unfolding get_on_mac get_elsewhere mac_logical_processor_count fallback_logical_processor_count
others-IsConsistent none hardware_concurrency fits fits' =
    let same = uniform-IsConsistent (max 1 hardware_concurrency) (omega arith) (omega arith) in
    (same, same)
others-IsConsistent (some count) hardware_concurrency fits fits' =
    let said = fits count refl in
    (
      uniform-IsConsistent _ (ground arith) (ground arith),
      uniform-IsConsistent (max 1 hardware_concurrency) (omega arith) (omega arith),
    )
