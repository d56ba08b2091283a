-- ===== src/ThreadPool/Accounting.antt =====
-- What the critical sections of the tag map do to its elements' counts and flags.
use cpputils.Base.{
  ℕ, ◌+◌, ◌≤◌, ◌<◌, ◌≡◌, refl, Option, none, some, false, inl, inr, ◌==◌, if◌then◌else◌, one_if,
  arith, u64_mod, Option-cases, Bool-cases,
}
use cpputils.ThreadPool.Tags.{
  Tags, TagState, find, deref, modify, try_emplace, erase_own, count_up, count_down, set_retired,
  outstanding_at, retired_at, deref-modify, deref-remove, deref-find,
}
use cpputils.ThreadPool.State.{TaggedTask, State, register, complete_tagged_task, points_to}

-- 1 if the task counts for the element at `p`.
abbrev pub counts_for : {T : Type 0} → ℕ → TaggedTask T → ℕ
counts_for p item = one_if (points_to p item)

-- The map after an operation that leaves counts and flags alone.
pub record IsSame (m m' : Tags) : Type 0 where
  pub counts : (q : ℕ) → outstanding_at q m' ≡ outstanding_at q m
  pub flags : (q : ℕ) → retired_at q m' ≡ retired_at q m

-- Addresses not yet given out lead nowhere.
abbrev pub IsFresh : Tags → Type 0
IsFresh m = (q : ℕ) → m.next_address ≤ q → deref q m.nodes ≡ none

try_emplace_lem :
    (t : ℕ) (m : Tags)
    → IsFresh m
    → let (p, m') = try_emplace t m in
      IsSame m m' × IsFresh m' × ((st : TagState) × (deref p m'.nodes ≡ some st))
unfolding try_emplace deref
try_emplace_lem t m fresh = elim (Option-cases (find t m.nodes)) [
  | inl new ↦
      rw (new, try_emplace)
        (
          record { counts = λ q. ground (arith, fresh q); flags = λ q. ground (arith, fresh q) },
          λ q le. ground (arith, fresh q),
          (record { outstanding = 0; retired = false }, ground arith),
        )
  | inr (p, old) ↦
      rw (old, try_emplace)
        (record { counts = λ q. refl; flags = λ q. refl }, fresh, deref-find t p m.nodes old)
]

module _ (p : ℕ) (m : Tags) {st : TagState} (live : deref p m.nodes ≡ some st) where
  abbrev written : (TagState → TagState) → Tags
  written f = record m { nodes = modify p f m.nodes }

  pub written-count_up :
      st.outstanding + 1 < u64_mod
      → (q : ℕ)
      → (outstanding_at q (written count_up) ≡ outstanding_at q m + one_if (p == q))
        × (retired_at q (written count_up) ≡ retired_at q m)
  written-count_up fits q = ground (arith, deref-modify q p count_up m.nodes)

  pub written-count_down :
      (k : ℕ)
      → k ≤ st.outstanding
      → st.outstanding < u64_mod
      → (q : ℕ)
      → (outstanding_at q (written (count_down k)) + (if p == q then k else 0) ≡ outstanding_at q m)
        × (retired_at q (written (count_down k)) ≡ retired_at q m)
  written-count_down k le fits q = ground (arith, deref-modify q p (count_down k) m.nodes)

  pub written-set_retired :
      st.retired ≡ false
      → (q : ℕ)
      → (outstanding_at q (written set_retired) ≡ outstanding_at q m)
        × (retired_at q (written set_retired) ≡ retired_at q m + one_if (p == q))
  written-set_retired no_flag q = ground (arith, deref-modify q p set_retired m.nodes)

pub IsFresh-modify :
    (p : ℕ) (f : TagState → TagState) (m : Tags)
    → IsFresh m
    → IsFresh (record m { nodes = modify p f m.nodes })
IsFresh-modify p f m fresh q le = ground (arith, fresh q le, deref-modify q p f m.nodes)

pub erase_own_lem :
    (t p : ℕ) (m : Tags) {st : TagState}
    → deref p m.nodes ≡ some st
    → st.outstanding ≡ 0
    → ((q : ℕ)
        → (outstanding_at q (erase_own t p m) ≡ outstanding_at q m)
          × (retired_at q m ≤ retired_at q (erase_own t p m) + one_if (p == q)))
      × (IsFresh m → IsFresh (erase_own t p m))
unfolding erase_own
erase_own_lem t p m live zero_left = elim (Option-cases (find t m.nodes)) [
  | inl gone ↦ rw (gone, erase_own) (λ q. ground arith, λ fresh. fresh)
  | inr (r, there) ↦
      rw (there, erase_own)
        (
          λ q. ground (arith, deref-remove q p m.nodes),
          elim (Bool-cases (r == p)) [
            | inl own ↦ rw own (λ fresh q le. ground (arith, fresh q le, deref-remove q p m.nodes))
            | inr other ↦ rw other (λ fresh. fresh)
          ],
        )
]

-- A pointer to an element with a count does not dangle.
pub live_of_count :
    (p : ℕ) (m : Tags) → 0 < outstanding_at p m → (st : TagState) × (deref p m.nodes ≡ some st)
live_of_count p m h = elim (Option-cases (deref p m.nodes)) [
  | inl dangling ↦ absurd (ground arith)
  | inr found ↦ found
]

pub live_of_flag :
    (p : ℕ) (m : Tags) → 0 < retired_at p m → (st : TagState) × (deref p m.nodes ≡ some st)
live_of_flag p m h = elim (Option-cases (deref p m.nodes)) [
  | inl dangling ↦ absurd (ground arith)
  | inr found ↦ found
]

module _ {T : Type 0} where
  -- What `register` and `completeTaggedTask` leave alone.
  pub record IsTagWrite (s s' : State T) : Type 0 where
    pub lanes : s'.lanes ≡ s.lanes
    pub queued_count : s'.queued_count ≡ s.queued_count
    pub fresh : IsFresh s.tags → IsFresh s'.tags
    pub flags : (q : ℕ) → retired_at q s'.tags ≡ retired_at q s.tags

  -- A registered task is counted at the element that it points to, and nowhere else.
  pub register_lem :
      (task : T) (tag : ℕ) (s : State T) {item : TaggedTask T} {s' : State T}
      → IsFresh s.tags
      → ((p : ℕ) → outstanding_at p s.tags + 1 < u64_mod)
      → register task tag s ≡ (some item, s')
      → IsTagWrite s s'
        × ((q : ℕ) → outstanding_at q s'.tags ≡ outstanding_at q s.tags + counts_for q item)
  unfolding register
  register_lem task tag s fresh fits e =
      let (same, fresh', (st, live)) = try_emplace_lem tag s.tags fresh in
      let (p, m) = try_emplace tag s.tags in
      let up = written-count_up p m live (ground (arith, fits p, same.counts p)) in
      (
        record {
          lanes = ground arith;
          queued_count = ground arith;
          fresh = λ _ q le. ground (arith, fresh q, IsFresh-modify p count_up m fresh' q);
          flags = λ q. ground (arith, same.flags q, up q);
        },
        λ q. ground (arith, same.counts q, up q),
      )

  -- A refused task is counted nowhere.
  pub register_refused :
      (task : T) (tag : ℕ) (s : State T) {s' : State T}
      → IsFresh s.tags
      → register task tag s ≡ (none, s')
      → IsTagWrite s s' × ((q : ℕ) → outstanding_at q s'.tags ≡ outstanding_at q s.tags)
  unfolding register
  register_refused task tag s fresh e =
      let (same, fresh', _) = try_emplace_lem tag s.tags fresh in
      (
        record {
          lanes = ground arith;
          queued_count = ground arith;
          fresh = λ _ q le. ground (arith, fresh' q);
          flags = λ q. ground (arith, same.flags q);
        },
        λ q. ground (arith, same.counts q),
      )

  pub complete_tagged_task_lem :
      (to : Option ℕ) (task : T) (s : State T)
      → let item : TaggedTask T = record { tag_state = to; task = task } in
        ((q : ℕ) → counts_for q item ≤ outstanding_at q s.tags)
        → ((q : ℕ) → outstanding_at q s.tags < u64_mod)
        → let s' = complete_tagged_task to s in
          IsTagWrite s s'
          × ((q : ℕ) → outstanding_at q s'.tags + counts_for q item ≡ outstanding_at q s.tags)
  unfolding complete_tagged_task
  complete_tagged_task_lem none task s counted fits = (
    record { lanes = refl; queued_count = refl; fresh = λ f. f; flags = λ q. refl },
    λ q. omega arith,
  )
  complete_tagged_task_lem (some p) task s counted fits =
      let (st, live) = live_of_count p s.tags (ground (arith, counted p)) in
      let down =
        written-count_down p s.tags live 1 (ground (arith, counted p)) (ground (arith, fits p)) in
      (
        record {
          lanes = refl;
          queued_count = refl;
          fresh = IsFresh-modify p (count_down 1) s.tags;
          flags = λ q. (down q).1;
        },
        λ q. ground (arith, down q),
      )
