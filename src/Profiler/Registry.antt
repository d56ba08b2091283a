-- ===== src/Profiler/Registry.antt =====
-- References to counters stay valid.
use cpputils.Base.{
  bytes_eq_refl, bytes_eq→eq, ℕ, zero, suc, ◌≡◌, List, [], ◌∷◌, ◌++◌, none, some, bytes_eq,
  get_elem?, arith, length, Option-cases, Bool-cases, inl, inr,
}
use cpputils.Profiler.{Accumulator, existing, counter}

-- The counter at an index has a name.
abbrev pub Named : List Accumulator → ℕ → List ℕ → Type 0
Named counters i name = (a : Accumulator) × (get_elem? counters i ≡ some a) × (a.name ≡ name)

existing-Named :
    (name : List ℕ) (cs : List Accumulator) (i : ℕ) → existing name cs ≡ some i → Named cs i name
unfolding existing
existing-Named name [] i e = ground arith
existing-Named name (a ∷ cs) i e = elim (Bool-cases (bytes_eq name a.name)) [
  | inl same ↦ (a, ground arith, ground (arith, bytes_eq→eq name a.name same))
  | inr other ↦ elim (Option-cases (existing name cs)) [
    | inl nothing ↦ absurd (ground arith)
    | inr (k, found) ↦
        let (b, at, named) = existing-Named name cs k found in
        let e' : i ≡ suc k = ground arith in (b, ground arith, named)
  ]
]

existing-append :
    (name : List ℕ) (cs : List Accumulator)
    → existing name cs ≡ none
    → existing name (cs ++ record { name = name; ns = 0; calls = 0 } ∷ []) ≡ some (length cs)
unfolding existing
existing-append name [] e = ground (arith, bytes_eq_refl name)
existing-append name (a ∷ cs) e = ground (arith, existing-append name cs)

get_elem?-append :
    (cs ds : List Accumulator) (j : ℕ) (a : Accumulator)
    → get_elem? cs j ≡ some a
    → get_elem? (cs ++ ds) j ≡ some a
get_elem?-append [] ds j a e = ground arith
get_elem?-append (c ∷ cs) ds zero a e = e
get_elem?-append (c ∷ cs) ds (suc j) a e = get_elem?-append cs ds j a e

-- `counter(name)` returns a counter of that name; every counter that there was stays where it was,
-- with its values; and a second call with the name returns the same counter and adds none.
pub counter-is_stable :
    (name : List ℕ) (cs : List Accumulator)
    → let (i, cs') = counter name cs in
      Named cs' i name
      × ((j : ℕ) (a : Accumulator) → get_elem? cs j ≡ some a → get_elem? cs' j ≡ some a)
      × (counter name cs' ≡ (i, cs'))
unfolding counter
counter-is_stable name cs = elim (Option-cases (existing name cs)) [
  | inr (i, found) ↦
      let result : counter name cs ≡ (i, cs) = ground arith in
      rw result (existing-Named name cs i found, (λ j a e. e), result)
  | inl new ↦
      let added : Accumulator = record { name = name; ns = 0; calls = 0 } in
      let result : counter name cs ≡ (length cs, cs ++ added ∷ []) = ground arith in
      let again = existing-append name cs new in
      let second : counter name (cs ++ added ∷ []) ≡ (length cs, cs ++ added ∷ []) = ground arith in
      rw result (
        existing-Named name (cs ++ added ∷ []) (length cs) again,
        (λ j a e. get_elem?-append cs (added ∷ []) j a e),
        second,
      )
]
