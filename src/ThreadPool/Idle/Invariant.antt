-- ===== src/ThreadPool/Idle/Invariant.antt =====
-- What the idle count, the mutex and the pending notifications say of the workers.
use cpputils.Base.{
  ℕ, ◌+◌, ◌≤◌, ◌<◌, ◌≡◌, refl, false, arith, update, total, total_mono, total-eq-zero, total-map,
  total-add, total_except, total-le_size, total-eq-zero_below, total-split, total-update_split,
}
use cpputils.ThreadPool.Idle.{
  Idle, Worker, starting, checked, blocked, woken, Caller, outside, notifying, stopping, wake,
  WorkerMove, CallerMove, System, is_blocked, Step, works, acts, notifies, notifies_nobody,
  notifies_all, Reach, start, later,
}
use cpputils.ThreadPool.Idle.Local.{
  is_idle, is_checked, is_asleep, has_started, is_pending, is_stopping, Local, WorkerMove-Local,
  CallerMove-Local,
}

abbrev pub Inv : ℕ → ℕ → System → Type 0
Inv n m y =
    Local n y.state (total has_started n y.workers) (total is_idle n y.workers)
      (total is_asleep n y.workers) (total is_checked n y.workers) (total is_pending m y.callers)
      (total is_stopping m y.callers)

pub asleep_wake : (w : Worker) → is_asleep (wake w) ≡ is_checked w
asleep_wake blocked = refl
asleep_wake w = ground arith

idle_wake : (w : Worker) → is_idle (wake w) ≡ is_idle w
idle_wake blocked = refl
idle_wake w = ground arith

started_wake : (w : Worker) → has_started (wake w) ≡ has_started w
started_wake blocked = refl
started_wake w = ground arith

checked_wake : (w : Worker) → is_checked (wake w) ≡ is_checked w
checked_wake blocked = refl
checked_wake w = ground arith

asleep-le-idle : (w : Worker) → is_asleep w ≤ is_idle w
asleep-le-idle checked = omega arith
asleep-le-idle blocked = omega arith
asleep-le-idle w = omega arith

asleep_parts : (w : Worker) → is_checked w + is_blocked w ≡ is_asleep w
asleep_parts checked = refl
asleep_parts blocked = refl
asleep_parts w = ground arith

asleep-le-one : (w : Worker) → is_asleep w ≤ 1
asleep-le-one checked = omega arith
asleep-le-one w = omega arith

works-Inv :
    {n : ℕ} (m : ℕ) (y : System) (i : ℕ) {s : Idle} {w : Worker}
    → Inv n m y
    → i < n
    → WorkerMove y.state (y.workers i) s w
    → Inv n m (record y { state = s; workers = update y.workers i w })
works-Inv {n} m y i {s} {w} v lt mv =
    let split = λ (f : Worker → ℕ). total-split f n y.workers i lt in
    let moved = λ (f : Worker → ℕ). total-update_split f n y.workers i w lt in
    let rest = λ (f : Worker → ℕ). total_except f n y.workers i in
    let after =
      WorkerMove-Local n (rest has_started) (rest is_idle) (rest is_asleep) (rest is_checked)
        (total is_pending m y.callers) (total is_stopping m y.callers) mv
        (rw (← split has_started, ← split is_idle, ← split is_asleep, ← split is_checked) v) in
    rw (moved has_started, moved is_idle, moved is_asleep, moved is_checked) after

acts-Inv :
    {n : ℕ} (m : ℕ) (y : System) (c : ℕ) {s : Idle} {p : Caller}
    → 0 < n
    → Inv n m y
    → c < m
    → CallerMove y.state (y.callers c) s p
    → Inv n m (record y { state = s; callers = update y.callers c p })
acts-Inv {n} m y c {s} {p} pos v lt mv =
    let split = λ (f : Caller → ℕ). total-split f m y.callers c lt in
    let moved = λ (f : Caller → ℕ). total-update_split f m y.callers c p lt in
    let rest = λ (f : Caller → ℕ). total_except f m y.callers c in
    let after =
      CallerMove-Local n (total has_started n y.workers) (total is_idle n y.workers)
        (total is_asleep n y.workers) (total is_checked n y.workers) (rest is_pending)
        (rest is_stopping) pos (total_mono is_asleep is_idle asleep-le-idle n y.workers) mv
        (rw (← split is_pending, ← split is_stopping) v) in
    rw (moved is_pending, moved is_stopping) after

notifies-Inv :
    {n : ℕ} (m : ℕ) (y : System) (c j : ℕ)
    → Inv n m y
    → c < m
    → y.callers c ≡ notifying
    → j < n
    → y.workers j ≡ blocked
    → Inv n m
        (record y { workers = update y.workers j woken; callers = update y.callers c outside })
notifies-Inv {n} m y c j v lt at_c lt' at_j = ground (
  arith,
  total-update_split has_started n y.workers j woken lt',
  total-split has_started n y.workers j lt',
  total-update_split is_idle n y.workers j woken lt',
  total-update_split is_asleep n y.workers j woken lt',
  total-update_split is_checked n y.workers j woken lt',
  total-split is_idle n y.workers j lt',
  total-split is_asleep n y.workers j lt',
  total-split is_checked n y.workers j lt',
  total-update_split is_pending m y.callers c outside lt,
  total-update_split is_stopping m y.callers c outside lt,
  total-split is_stopping m y.callers c lt,
  total-le_size is_asleep asleep-le-one n y.workers,
)

notifies_nobody-Inv :
    {n : ℕ} (m : ℕ) (y : System) (c : ℕ)
    → 0 < n
    → Inv n m y
    → c < m
    → y.callers c ≡ notifying
    → y.state.locked ≡ false
    → total is_blocked n y.workers ≡ 0
    → Inv n m (record y { callers = update y.callers c outside })
notifies_nobody-Inv {n} m y c pos v lt at_c free none_blocked = ground (
  arith,
  total-update_split is_pending m y.callers c outside lt,
  total-update_split is_stopping m y.callers c outside lt,
  total-split is_stopping m y.callers c lt,
  total-split is_pending m y.callers c lt,
  total-add is_checked is_blocked is_asleep asleep_parts n y.workers,
)

notifies_all-Inv :
    {n : ℕ} (m : ℕ) (y : System) (c : ℕ)
    → 0 < n
    → Inv n m y
    → c < m
    → y.callers c ≡ stopping
    → y.state.locked ≡ false
    → Inv n m (record y { workers = λ i. wake (y.workers i); callers = update y.callers c outside })
notifies_all-Inv {n} m y c pos v lt at_c free = ground (
  arith,
  total-update_split is_pending m y.callers c outside lt,
  total-split is_pending m y.callers c lt,
  total-map is_asleep is_checked wake asleep_wake n y.workers,
  total-map has_started has_started wake started_wake n y.workers,
  total-map is_idle is_idle wake idle_wake n y.workers,
  total-map is_checked is_checked wake checked_wake n y.workers,
)

Step-Inv : {n m : ℕ} {y z : System} → 0 < n → Step n m y z → Inv n m y → Inv n m z
Step-Inv {n} {m} {y} pos (works i lt mv) v = works-Inv m y i v lt mv
Step-Inv {n} {m} {y} pos (acts c lt mv) v = acts-Inv m y c pos v lt mv
Step-Inv {n} {m} {y} pos (notifies c j lt at_c free lt' at_j) v =
    notifies-Inv m y c j v lt at_c lt' at_j
Step-Inv {n} {m} {y} pos (notifies_nobody c lt at_c free none_blocked) v =
    notifies_nobody-Inv m y c pos v lt at_c free
      (total-eq-zero_below is_blocked n y.workers none_blocked)
Step-Inv {n} {m} {y} pos (notifies_all c lt at_c free) v = notifies_all-Inv m y c pos v lt at_c free

pub Reach-Inv : {n m : ℕ} {y : System} → 0 < n → Reach n m y → Inv n m y
Reach-Inv {n} {m} pos start = ground (
  arith,
  total-eq-zero has_started n (λ _. starting) (λ _. refl),
  total-eq-zero is_idle n (λ _. starting) (λ _. refl),
  total-eq-zero is_asleep n (λ _. starting) (λ _. refl),
  total-eq-zero is_checked n (λ _. starting) (λ _. refl),
)
Reach-Inv pos (later r st) = Step-Inv pos st (Reach-Inv pos r)
