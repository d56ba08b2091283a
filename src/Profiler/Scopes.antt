-- ===== src/Profiler/Scopes.antt =====
-- timing/profiler.cpp: the logging function, the timeline, `mark` and `Scope`. A logged line is a
-- record of the values that the format puts into it; times are nanoseconds.
use cpputils.Base.{
  sub64, u64_mod, ◌≤◌, ◌<◌, ℕ, ap, ◌∙◌, ◌+◌, ◌-◌, ◌≡◌, List, [], ◌∷◌, ◌++◌, Bool, true,
  if◌then◌else◌, arith,
}
use mathlib.Core.List.{append-nil, append_assoc}
use cpputils.Timing.{TimeElapsed, elapsed}
use cpputils.Timing

pub data Line : Type 0 where
  -- the time, the time since the previous mark, and `what`
  mark_line : ℕ → ℕ → List ℕ → Line
  -- the time, the scope's duration, its `_indent` and its `_what`
  scope_line : ℕ → ℕ → ℕ → List ℕ → Line

-- Whether `loggingFunc` is set and what it has been called with, the timeline, `scopeDepth`, and the
-- `previousNs` of `mark`.
pub record Profile : Type 0 where
  pub has_logging_func : Bool
  pub logged : List Line
  pub timeline : TimeElapsed
  pub scope_depth : ℕ
  pub previous_ns : ℕ

pub record Scope : Type 0 where
  pub what : List ℕ
  pub indent : ℕ
  pub timer : TimeElapsed

unfoldable pub log : Line → Profile → Profile
log line p = if p.has_logging_func then record p { logged = p.logged ++ (line ∷ []) } else p

unfoldable set_logging_func : Bool → Profile → Profile
set_logging_func is_set p = record p { has_logging_func = is_set }

unfoldable pub start : ℕ → Profile → Profile
unfolding Timing.start
start now p = record p { timeline = Timing.start now p.timeline }

-- `mark(what)` at the time `now`.
unfoldable pub mark : ℕ → List ℕ → Profile → Profile
unfolding log elapsed
mark now what p =
    let now_ns = elapsed 1 now p.timeline in
    record (log (mark_line now_ns (sub64 now_ns p.previous_ns) what) p) { previous_ns = now_ns }

-- The constructor of `Scope`.
unfoldable open_scope : ℕ → List ℕ → Profile → Scope × Profile
unfolding Timing.create
open_scope now what p = (
  record { what = what; indent = p.scope_depth; timer = Timing.create true now },
  record p { scope_depth = p.scope_depth + 1 },
)

-- The destructor.
unfoldable close_scope : ℕ → Scope → Profile → Profile
unfolding log elapsed
close_scope now scope p =
    log (scope_line (elapsed 1 now p.timeline) (elapsed 1 now scope.timer) scope.indent scope.what)
      (record p { scope_depth = p.scope_depth - 1 })

-- Scopes as they stand in code, one after the other, each with when it begins and ends and what
-- stands in it.
pub data Blocks : Type 0 where
  done : Blocks
  block : (what : List ℕ) (begins ends : ℕ) → Blocks → Blocks → Blocks

unfoldable pub run : Blocks → Profile → Profile
unfolding open_scope close_scope
run done p = p
run (block what begins ends inner rest) p =
    let (scope, p₁) = open_scope begins what p in run rest (close_scope ends scope (run inner p₁))

-- The report that is wanted: what stands in a scope, one level deeper, then the scope.
abbrev pub report : TimeElapsed → ℕ → Blocks → List Line
unfolding elapsed
report timeline depth done = []
report timeline depth (block what begins ends inner rest) =
    (report timeline (depth + 1) inner
      ++ (scope_line (elapsed 1 ends timeline) (ends - begins) depth what ∷ []))
    ++ report timeline depth rest

abbrev pub with_lines : List Line → Profile → Profile
with_lines ls p = record p { logged = p.logged ++ (if p.has_logging_func then ls else []) }

with_lines_twice :
    (ls ms : List Line) (p : Profile) → with_lines ms (with_lines ls p) ≡ with_lines (ls ++ ms) p
with_lines_twice ls ms p = ground (arith, append_assoc p.logged ls ms, append_assoc p.logged [] [])

close_scope-with_lines :
    (what : List ℕ) (begins ends : ℕ) (ls : List Line) (p : Profile)
    → let (scope, p₁) = open_scope begins what p in
      close_scope ends scope (with_lines ls p₁)
      ≡ with_lines
          (ls ++ (scope_line (elapsed 1 ends p.timeline) (ends - begins) p.scope_depth what ∷ []))
          p
unfolding open_scope close_scope log elapsed Timing.create Timing.start
close_scope-with_lines what begins ends ls p = ground (
  arith,
  append_assoc p.logged ls
      (scope_line (elapsed 1 ends p.timeline) (ends - begins) p.scope_depth what ∷ []),
)

-- Nested scopes are logged before the scope around them, each with its level and its duration, and
-- afterwards the depth is as it was.
pub run-report :
    (bs : Blocks) (p : Profile) → run bs p ≡ with_lines (report p.timeline p.scope_depth bs) p
unfolding run
run-report done p = ground (arith, append-nil p.logged)
run-report (block what begins ends inner rest) p =
    let (scope, p₁) = open_scope begins what p in
    let inner_lines = report p.timeline (p.scope_depth + 1) inner in
    let own = scope_line (elapsed 1 ends p.timeline) (ends - begins) p.scope_depth what ∷ [] in
    let in_scope : run inner p₁ ≡ with_lines inner_lines p₁ =
      unfold open_scope in run-report inner p₁ in
    ap (λ q. run rest (close_scope ends scope q)) in_scope
    ∙ ap (run rest) (close_scope-with_lines what begins ends inner_lines p)
    ∙ run-report rest (with_lines (inner_lines ++ own) p)
    ∙ with_lines_twice (inner_lines ++ own) (report p.timeline p.scope_depth rest) p

-- `start()` leaves `previousNs`: a mark that comes sooner after `start()` than the mark before it came
-- after the earlier start is logged with a difference that has wrapped around.
mark-start_wraps :
    (began now : ℕ) (what : List ℕ) (p : Profile)
    → p.has_logging_func ≡ true
    → began ≤ now
    → now - began < p.previous_ns
    → p.previous_ns < u64_mod
    → (mark now what (start began p)).logged
      ≡ p.logged ++ (mark_line (now - began) (u64_mod - (p.previous_ns - (now - began))) what ∷ [])
unfolding mark start log elapsed Timing.start
mark-start_wraps began now what p logs le sooner fits = ground arith
