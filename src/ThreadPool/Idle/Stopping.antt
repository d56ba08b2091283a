-- ===== src/ThreadPool/Idle/Stopping.antt =====
-- After `requestWorkersStop` the workers' loops end; `waitUntilStarted`.
use cpputils.Base.{
  ℕ, ◌+◌, ◌*◌, ◌≤◌, ◌<◌, ◌≡◌, refl, ap, true, false, ◌⊎◌, inl, inr, arith, dec_lt, ℕ_discrete,
  total, total-le, total_mono, total_misses, total-le_times, total-lt_size, total-eq-zero_below,
  u32_mod,
}
use cpputils.ThreadPool.Idle.{
  Idle, Worker, starting, at_top, searching, entering, checked, blocked, woken, leaving, exited,
  may_go, is_started, WorkerMove, starts, ends_round, passes, passes_again, leaves, exits, System,
  Reach,
}
use cpputils.ThreadPool.Idle.Wakeups.{stop_wakes_all}
use cpputils.ThreadPool.Idle.Local.{is_asleep, is_checked, has_started, is_stopping}
use cpputils.ThreadPool.Idle.Invariant.{Reach-Inv}
use cpputils.ThreadPool.Idle.Quiet.{
  rank, IsQuiet, checked-le-asleep, rank-le_five, Run, run-IsQuiet,
}

started-le_one : (w : Worker) → has_started w ≤ 1
started-le_one starting = omega arith
started-le_one w = ground arith

-- `waitUntilStarted` returns only when every worker of the pool has started.
pub started-all :
    {n m : ℕ} {y : System}
    → Reach n m y
    → is_started n y.state ≡ true
    → (i : ℕ) → i < n
    → has_started (y.workers i) ≡ 1
unfolding is_started
started-all {n} {m} {y} r all i lt = elim (ℕ_discrete (has_started (y.workers i)) 0) [
  | yes not_yet ↦
      let few = total-lt_size has_started started-le_one n y.workers i lt not_yet in
      absurd (ground (arith, (Reach-Inv (omega arith) r).counted_started, few))
  | no started ↦ omega (arith, started-le_one (y.workers i))
]

-- Whether a worker's loop is over.
abbrev pub has_ended : Worker → ℕ
has_ended exited = 1
has_ended _ = 0

ended-le_one : (w : Worker) → has_ended w ≤ 1
ended-le_one exited = omega arith
ended-le_one w = ground arith

-- A worker that can go on.
abbrev pub CanMove : ℕ → System → Type 0
CanMove n y = (i : ℕ) × (i < n) × (s : Idle) × (w : Worker) × WorkerMove y.state (y.workers i) s w

can_move :
    (s : Idle) (w : Worker)
    → s.terminate ≡ true
    → s.locked ≡ false
    → (w ≡ starting → s.started_worker_count + 1 < u32_mod)
    → is_asleep w ≡ 0
    → has_ended w ≡ 0
    → (s' : Idle) × (w' : Worker) × WorkerMove s w s' w'
unfolding may_go
can_move s starting ended free fits up on = (_, _, starts (fits refl))
can_move s at_top ended free fits up on = (_, _, exits ended)
can_move s searching ended free fits up on = (_, _, ends_round)
can_move s entering ended free fits up on = (_, _, passes free (ground arith))
can_move s woken ended free fits up on = (_, _, passes_again free (ground arith))
can_move s leaving ended free fits up on = (_, _, leaves)
can_move s checked ended free fits up on = absurd (omega arith)
can_move s blocked ended free fits up on = absurd (omega arith)
can_move s exited ended free fits up on = absurd (omega arith)

nobody_asleep-CanMove :
    {n m : ℕ} {y : System}
    → n < u32_mod
    → Reach n m y
    → IsQuiet n y
    → (i : ℕ) → i < n
    → has_ended (y.workers i) ≡ 0
    → CanMove n y
nobody_asleep-CanMove {n} {m} {y} small r q i lt on =
    let v = Reach-Inv (omega arith) r in
    let nobody_checked : total is_checked n y.workers ≡ 0 =
      omega (arith, total_mono is_checked is_asleep checked-le-asleep n y.workers, q.nobody) in
    let fits : y.workers i ≡ starting → y.state.started_worker_count + 1 < u32_mod = λ e.
      let few = total-lt_size has_started started-le_one n y.workers i lt (ap has_started e) in
      omega (arith, v.counted_started, few) in
    let free : y.state.locked ≡ false = ground (arith, v.holder, nobody_checked) in
    let up : is_asleep (y.workers i) ≡ 0 =
      omega (arith, total-le is_asleep n y.workers i lt, q.nobody) in
    let (s, w, mv) = can_move y.state (y.workers i) q.ended free fits up on in (i, lt, s, w, mv)

all_ended :
    (n : ℕ) (workers : ℕ → Worker)
    → ((i : ℕ) → i < n → has_ended (workers i) ≡ 1)
      ⊎ ((i : ℕ) × (i < n) × (has_ended (workers i) ≡ 0))
all_ended n workers = elim (dec_lt (total has_ended n workers) n) [
  | yes few ↦ inr (total_misses has_ended n workers few)
  | no all ↦ inl (λ i lt. elim (ℕ_discrete (has_ended (workers i)) 0) [
    | yes not_yet ↦ absurd (all (total-lt_size has_ended ended-le_one n workers i lt not_yet))
    | no ended ↦ omega (arith, ended-le_one (workers i))
  ])
]

-- In a pool of some workers, fewer than 2^32, from any moment at which `terminate` is set and no call
-- of `requestWorkersStop` is before its notification, and whatever the callers do from then on: the
-- workers together make at most five moves for each of them, and as long as not all loops are over
-- some worker can make one. A task that is running returns.
pub stop_ends :
    {n m : ℕ} {y : System}
    → 0 < n
    → n < u32_mod
    → Reach n m y
    → y.state.terminate ≡ true
    → ((c : ℕ) → c < m → is_stopping (y.callers c) ≡ 0)
    → {k : ℕ} {z : System} → Run n m y k z
    → (k ≤ n * 5) × (((i : ℕ) → i < n → has_ended (z.workers i) ≡ 1) ⊎ CanMove n z)
stop_ends {n} {m} {y} pos small r ended no_caller {k} {z} run =
    let up = total-eq-zero_below is_asleep n y.workers (stop_wakes_all pos r ended no_caller) in
    let (r', q, bound) = run-IsQuiet r (record { ended = ended; nobody = up }) run in
    (
      omega (arith, bound, total-le_times rank 5 rank-le_five n y.workers),
      elim (all_ended n z.workers) [
        | inl over ↦ inl over
        | inr (i, lt, on) ↦ inr (nobody_asleep-CanMove small r' q i lt on)
      ],
    )
