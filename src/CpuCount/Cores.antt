-- ===== src/CpuCount/Cores.antt =====
-- threading/thread_helpers.cpp: the map from a core's key to the core, as it is filled processor by
-- processor. `same` compares keys.
use cpputils.Base.{
  ℕ, ◌+◌, ◌≤◌, ◌<◌, ◌≡◌, List, [], ◌∷◌, Bool, false, ◌||◌, if◌then◌else◌, length, map, add32, arith,
  u32_mod,
}
use cpputils.CpuCount.{Core}
use cpputils.CpuCount.Classes.{threads}

pub record Entry (K : Type 0) : Type 0 where
  pub key : K
  pub core : Core

abbrev pub cores_of : {K : Type 0} → List (Entry K) → List Core
cores_of {K} es = map (λ (e : Entry K). e.core) es

module _ {K : Type 0} (same : K → K → Bool) where
  -- `cores.try_emplace(key)` and `++core.logicalProcessorCount`; a new core has the performance given.
  unfoldable pub add_processor : K → ℕ → List (Entry K) → List (Entry K)
  add_processor key performance [] =
      record {
        key = key;
        core = record { logical_processor_count = 1; relative_performance = performance };
      }
      ∷ []
  add_processor key performance (e ∷ es) =
      if same e.key key
      then (record {
        key = e.key;
        core = record e.core { logical_processor_count = add32 e.core.logical_processor_count 1 };
      }
          ∷ es)
      else e ∷ add_processor key performance es

  -- Whether `try_emplace` finds the key.
  unfoldable pub is_known : K → List (Entry K) → Bool
  is_known key [] = false
  is_known key (e ∷ es) = same e.key key || is_known key es

  pub add_processor_lem :
      (key : K) (performance : ℕ) (es : List (Entry K))
      → threads (cores_of es) + 1 < u32_mod
      → (threads (cores_of (add_processor key performance es)) ≡ threads (cores_of es) + 1)
        × (length (cores_of (add_processor key performance es)) ≤ length (cores_of es) + 1)
        × (length (cores_of es) ≤ length (cores_of (add_processor key performance es)))
        × (0 < length (cores_of (add_processor key performance es)))
  unfolding add_processor
  add_processor_lem key performance [] h = ground arith
  add_processor_lem key performance (e ∷ es) h =
      ground (arith, add_processor_lem key performance es)
