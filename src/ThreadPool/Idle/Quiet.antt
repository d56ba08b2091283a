-- ===== src/ThreadPool/Idle/Quiet.antt =====
-- Once `terminate` is set and nobody is asleep, each move of a worker brings the end nearer.
use cpputils.Base.{
  ℕ, suc, ◌+◌, ◌≤◌, ◌<◌, ◌≡◌, refl, true, arith, update, total, total-le, total-map, total_mono,
  total-split, total-update_split,
}
use cpputils.ThreadPool.Idle.{
  Idle, Worker, starting, at_top, searching, entering, checked, blocked, woken, leaving, exited,
  Caller, may_go, wake, WorkerMove, starts, searches, ends_round, parks, passes, finds_nothing,
  blocks, stirs, times_out, passes_again, finds_nothing_again, leaves, exits, CallerMove, counts,
  pushes, unwinds, sees_none, sees_idle, takes, stops, System, Step, works, acts, notifies,
  notifies_nobody, notifies_all, Reach, later,
}
use cpputils.ThreadPool.Idle.Local.{is_asleep, is_checked}
use cpputils.ThreadPool.Idle.Invariant.{asleep_wake}

-- How far a worker is from the end of its loop, once `terminate` is set.
abbrev pub rank : Worker → ℕ
rank exited = 0
rank at_top = 1
rank starting = 2
rank leaving = 2
rank entering = 3
rank woken = 3
rank searching = 4
rank checked = 5
rank blocked = 5

-- `terminate` is set and nobody is asleep.
pub record IsQuiet (n : ℕ) (y : System) : Type 0 where
  pub ended : y.state.terminate ≡ true
  pub nobody : total is_asleep n y.workers ≡ 0

move-rank :
    {s s' : Idle} {w w' : Worker}
    → s.terminate ≡ true
    → is_asleep w ≡ 0
    → WorkerMove s w s' w'
    → (suc (rank w') ≤ rank w) × (is_asleep w' ≡ 0) × (s'.terminate ≡ true)
unfolding may_go
move-rank ended up (starts fits) = (omega arith, refl, ended)
move-rank ended up (searches on) = absurd (ground arith)
move-rank ended up ends_round = (omega arith, refl, ended)
move-rank ended up (parks fits) = (omega arith, refl, ended)
move-rank ended up (passes free go) = (omega arith, refl, ended)
move-rank ended up (finds_nothing free stay) = absurd (ground arith)
move-rank ended up blocks = absurd (ground arith)
move-rank ended up stirs = absurd (ground arith)
move-rank ended up (times_out free) = absurd (ground arith)
move-rank ended up (passes_again free go) = (omega arith, refl, ended)
move-rank ended up (finds_nothing_again free stay) = absurd (ground arith)
move-rank ended up leaves = (omega arith, refl, ended)
move-rank ended up (exits e) = (omega arith, refl, ended)

caller-terminate :
    {s s' : Idle} {p p' : Caller} → s.terminate ≡ true → CallerMove s p s' p' → s'.terminate ≡ true
caller-terminate ended (counts fits) = ended
caller-terminate ended pushes = ended
caller-terminate ended (unwinds some_left) = ended
caller-terminate ended (sees_none nobody) = ended
caller-terminate ended (sees_idle somebody) = ended
caller-terminate ended (takes k fits) = ended
caller-terminate ended stops = refl

-- How many moves of workers a step is.
abbrev pub work : {n m : ℕ} {y z : System} → Step n m y z → ℕ
work (works i lt mv) = 1
work _ = 0

pub checked-le-asleep : (w : Worker) → is_checked w ≤ is_asleep w
checked-le-asleep checked = omega arith
checked-le-asleep w = ground arith

rank-wake : (w : Worker) → rank (wake w) ≤ rank w
rank-wake blocked = omega arith
rank-wake w = ground arith

pub rank-le_five : (w : Worker) → rank w ≤ 5
rank-le_five w = ground arith

works-IsQuiet :
    {n : ℕ} (y : System) (i : ℕ) {s : Idle} {w : Worker}
    → IsQuiet n y
    → i < n
    → WorkerMove y.state (y.workers i) s w
    → let z : System = record y { state = s; workers = update y.workers i w } in
      IsQuiet n z × (suc (total rank n z.workers) ≤ total rank n y.workers)
works-IsQuiet {n} y i {s} {w} q lt mv =
    let up : is_asleep (y.workers i) ≡ 0 =
      omega (arith, total-le is_asleep n y.workers i lt, q.nobody) in
    let (lower, still_up, ended) = move-rank q.ended up mv in
    (
      record {
        ended = ended;
        nobody = omega (
          arith,
          total-update_split is_asleep n y.workers i w lt,
          total-split is_asleep n y.workers i lt,
          q.nobody,
          still_up,
        );
      },
      omega (
        arith,
        total-update_split rank n y.workers i w lt,
        total-split rank n y.workers i lt,
        lower,
      ),
    )

-- A step keeps the pool quiet, and a worker's brings the end nearer.
Step-IsQuiet :
    {n m : ℕ} {y z : System}
    → IsQuiet n y
    → (st : Step n m y z)
    → IsQuiet n z × (work st + total rank n z.workers ≤ total rank n y.workers)
Step-IsQuiet {n} {m} {y} q (works i lt mv) =
    let (q', lower) = works-IsQuiet y i q lt mv in (q', omega (arith, lower))
Step-IsQuiet {n} {m} {y} q (acts c lt mv) =
    (record { ended = caller-terminate q.ended mv; nobody = q.nobody }, omega arith)
Step-IsQuiet {n} {m} {y} q (notifies c j lt at_c free lt' at_j) =
    absurd (ground (arith, total-le is_asleep n y.workers j lt', q.nobody))
Step-IsQuiet {n} {m} {y} q (notifies_nobody c lt at_c free none_blocked) =
    (record { ended = q.ended; nobody = q.nobody }, omega arith)
Step-IsQuiet {n} {m} {y} q (notifies_all c lt at_c free) = (
  record {
    ended = q.ended;
    nobody = omega (
      arith,
      total-map is_asleep is_checked wake asleep_wake n y.workers,
      total_mono is_checked is_asleep checked-le-asleep n y.workers,
      q.nobody,
    );
  },
  omega (
    arith,
    total-map rank (λ w. rank (wake w)) wake (λ w. refl) n y.workers,
    total_mono (λ w. rank (wake w)) rank rank-wake n y.workers,
  ),
)

-- `k` moves of workers, with any other steps between them.
pub data Run (n m : ℕ) (y : System) : ℕ → System → Type 0 where
  here : Run n m y 0 y
  further :
      {k : ℕ} {z z' : System} → Run n m y k z → (st : Step n m z z') → Run n m y (work st + k) z'

pub run-IsQuiet :
    {n m : ℕ} {y : System}
    → Reach n m y
    → IsQuiet n y
    → {k : ℕ} {z : System} → Run n m y k z
    → Reach n m z × IsQuiet n z × (k + total rank n z.workers ≤ total rank n y.workers)
run-IsQuiet r q here = (r, q, omega arith)
run-IsQuiet r q (further run st) =
    let (r', q', bound) = run-IsQuiet r q run in
    let (q'', lower) = Step-IsQuiet q' st in (later r' st, q'', omega (arith, bound, lower))
