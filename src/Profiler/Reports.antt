-- ===== src/Profiler/Reports.antt =====
-- timing/profiler.cpp: `Accumulator::report` and `reportCounters`, and what the samples come to.
use cpputils.Base.{
  ℕ, zero, suc, ◌+◌, ◌%◌, ◌<◌, ◌≡◌, refl, sym, ◌∙◌, ap, ap₂, List, [], ◌∷◌, true, false, ◌==◌,
  if◌then◌else◌, arith, All, get_elem?, u64_mod, Option-cases, inl, inr,
}
use cpputils.Profiler.{Accumulator, add_sample, sample, reset, reset_counters}
use cpputils.Timing.{TimeElapsed, elapsed}

-- The values that the format of a report is given: the time, the counter's name, its total and its
-- number of calls, from which the mean is computed.
pub record Report : Type 0 where
  pub time : ℕ
  pub name : List ℕ
  pub ns : ℕ
  pub calls : ℕ

-- `Accumulator::report` at the time `now`.
unfoldable pub report : TimeElapsed → ℕ → Accumulator → Report
unfolding elapsed
report timeline now a = record {
  time = elapsed 1 now timeline;
  name = a.name;
  ns = a.ns;
  calls = a.calls;
}

-- `reportCounters`, of which the reports come at the times that `clock` gives.
unfoldable pub report_counters : TimeElapsed → (ℕ → ℕ) → ℕ → List Accumulator → List Report
unfolding report
report_counters timeline clock n [] = []
report_counters timeline clock n (a ∷ counters) =
    report timeline (clock n) a ∷ report_counters timeline clock (n + 1) counters

-- Samples one after the other, each with the counter that it is for and its length.
unfoldable pub samples : List (ℕ × ℕ) → List Accumulator → List Accumulator
unfolding sample
samples [] counters = counters
samples ((i, ns) ∷ rest) counters = samples rest (sample i ns counters)

-- The total length and the number of the samples for a counter.
abbrev pub total_ns : ℕ → List (ℕ × ℕ) → ℕ
total_ns k [] = 0
total_ns k ((i, ns) ∷ rest) = (if i == k then ns else 0) + total_ns k rest

abbrev pub number_of : ℕ → List (ℕ × ℕ) → ℕ
number_of k [] = 0
number_of k ((i, ns) ∷ rest) = (if i == k then 1 else 0) + number_of k rest

-- The reference: each counter with all of its samples at once, the first counter being number `k`.
abbrev tally : ℕ → List (ℕ × ℕ) → List Accumulator → List Accumulator
tally k taken [] = []
tally k taken (a ∷ counters) =
    record a {
      ns = (a.ns + total_ns k taken) % u64_mod;
      calls = (a.calls + number_of k taken) % u64_mod;
    }
    ∷ tally (k + 1) taken counters

abbrev Fits : Accumulator → Type 0
Fits a = (a.ns < u64_mod) × (a.calls < u64_mod)

abbrev with_values : Accumulator → ℕ → ℕ → Accumulator
with_values a ns calls = record a { ns = ns; calls = calls }

tally-nil : (k : ℕ) (cs : List Accumulator) → All Fits cs → tally k [] cs ≡ cs
tally-nil k [] fits = refl
tally-nil k (a ∷ cs) fits =
    let (fits_ns, fits_calls) = fits.0 in
    let same_ns : (a.ns + 0) % u64_mod ≡ a.ns = omega arith in
    let same_calls : (a.calls + 0) % u64_mod ≡ a.calls = omega arith in
    ap₂ ◌∷◌ (ap₂ (with_values a) same_ns same_calls) (tally-nil (k + 1) cs fits.1)

-- Samples for earlier counters make no difference.
tally_skip :
    (k j ns : ℕ) (rest : List (ℕ × ℕ)) (cs : List Accumulator)
    → j < k
    → tally k ((j, ns) ∷ rest) cs ≡ tally k rest cs
tally_skip k j ns rest [] lt = refl
tally_skip k j ns rest (a ∷ cs) lt =
    let other : (j == k) ≡ false = ground arith in
    ap₂ ◌∷◌ (ap₂ (with_values a) (rw other (omega arith)) (rw other (omega arith)))
      (tally_skip (k + 1) j ns rest cs (omega arith))

sample-nil : (i ns : ℕ) → sample i ns [] ≡ []
unfolding sample
sample-nil i ns = refl

sample-head :
    (ns : ℕ) (a : Accumulator) (cs : List Accumulator)
    → sample 0 ns (a ∷ cs) ≡ with_values a ((a.ns + ns) % u64_mod) ((a.calls + 1) % u64_mod) ∷ cs
unfolding sample add_sample
sample-head ns a cs = refl

sample-tail :
    (i ns : ℕ) (a : Accumulator) (cs : List Accumulator)
    → sample (suc i) ns (a ∷ cs) ≡ a ∷ sample i ns cs
unfolding sample
sample-tail i ns a cs = elim (Option-cases (get_elem? cs i)) [
  | inl nothing ↦ ground arith
  | inr (b, there) ↦ ground arith
]

tally-sample :
    (k i ns : ℕ) (rest : List (ℕ × ℕ)) (cs : List Accumulator)
    → tally k ((k + i, ns) ∷ rest) cs ≡ tally k rest (sample i ns cs)
tally-sample k i ns rest [] = ap (tally k rest) (sym (sample-nil i ns))
tally-sample k zero ns rest (a ∷ cs) =
    let here : ((k + 0) == k) ≡ true = ground arith in
    let sum : (a.ns + (ns + total_ns k rest)) % u64_mod
        ≡ ((a.ns + ns) % u64_mod + total_ns k rest) % u64_mod =
      omega arith in
    let count : (a.calls + (1 + number_of k rest)) % u64_mod
        ≡ ((a.calls + 1) % u64_mod + number_of k rest) % u64_mod =
      omega arith in
    ap₂ ◌∷◌ (rw here (ap₂ (with_values a) sum count))
      (tally_skip (k + 1) (k + 0) ns rest cs (omega arith))
    ∙ ap (tally k rest) (sym (sample-head ns a cs))
tally-sample k (suc i) ns rest (a ∷ cs) =
    let there : ((k + suc i) == k) ≡ false = ground arith in
    let next : k + suc i ≡ k + 1 + i = omega arith in
    ap₂ ◌∷◌ (ap₂ (with_values a) (rw there (omega arith)) (rw there (omega arith)))
      (ap (λ j. tally (k + 1) ((j, ns) ∷ rest) cs) next ∙ tally-sample (k + 1) i ns rest cs)
    ∙ ap (tally k rest) (sym (sample-tail i ns a cs))

sample-Fits : (i ns : ℕ) (cs : List Accumulator) → All Fits cs → All Fits (sample i ns cs)
sample-Fits i ns [] fits = rw (sample-nil i ns) tt
sample-Fits zero ns (a ∷ cs) fits = rw (sample-head ns a cs) ((omega arith, omega arith), fits.1)
sample-Fits (suc i) ns (a ∷ cs) fits =
    rw (sample-tail i ns a cs) (fits.0, sample-Fits i ns cs fits.1)

samples-eq-tally :
    (taken : List (ℕ × ℕ)) (cs : List Accumulator)
    → All Fits cs
    → samples taken cs ≡ tally 0 taken cs
unfolding samples
samples-eq-tally [] cs fits = sym (tally-nil 0 cs fits)
samples-eq-tally ((i, ns) ∷ rest) cs fits =
    samples-eq-tally rest (sample i ns cs) (sample-Fits i ns cs fits)
    ∙ sym (tally-sample 0 i ns rest cs)
    ∙ ap (λ j. tally 0 ((j, ns) ∷ rest) cs) (omega arith)

-- The reports wanted: one for each counter, in the order of their creation, with the sum of the
-- lengths of its samples and their number.
abbrev pub wanted : TimeElapsed → (ℕ → ℕ) → ℕ → List (ℕ × ℕ) → List Accumulator → List Report
unfolding elapsed
wanted timeline clock n taken [] = []
wanted timeline clock n taken (a ∷ cs) =
    record {
      time = elapsed 1 (clock n) timeline;
      name = a.name;
      ns = total_ns n taken % u64_mod;
      calls = number_of n taken % u64_mod;
    }
    ∷ wanted timeline clock (n + 1) taken cs

reset-Fits : (cs : List Accumulator) → All Fits (reset_counters cs)
unfolding reset_counters reset
reset-Fits [] = tt
reset-Fits (a ∷ cs) = ((omega arith, omega arith), reset-Fits cs)

report-tally :
    (timeline : TimeElapsed) (clock : ℕ → ℕ) (n : ℕ) (taken : List (ℕ × ℕ)) (cs : List Accumulator)
    → report_counters timeline clock n (tally n taken (reset_counters cs))
      ≡ wanted timeline clock n taken cs
unfolding report_counters report reset_counters reset
report-tally timeline clock n taken [] = refl
report-tally timeline clock n taken (a ∷ cs) =
    ap₂ ◌∷◌
      (ap₂
        (λ ns calls. record {
          time = elapsed 1 (clock n) timeline;
          name = a.name;
          ns = ns;
          calls = calls;
        })
        (omega arith) (omega arith))
      (report-tally timeline clock (n + 1) taken cs)

-- After `resetCounters` and any samples, `reportCounters` reports each counter once, in the order of
-- their creation, with the sum of the lengths of its samples and their number, both as far as 64 bits
-- hold them.
pub report_counters-wanted :
    (timeline : TimeElapsed) (clock : ℕ → ℕ) (taken : List (ℕ × ℕ)) (cs : List Accumulator)
    → report_counters timeline clock 0 (samples taken (reset_counters cs))
      ≡ wanted timeline clock 0 taken cs
report_counters-wanted timeline clock taken cs =
    ap (report_counters timeline clock 0)
      (samples-eq-tally taken (reset_counters cs) (reset-Fits cs))
    ∙ report-tally timeline clock 0 taken cs
