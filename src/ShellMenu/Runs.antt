-- ===== src/ShellMenu/Runs.antt =====
-- Each way through system/shellcontextmenu.cpp releases what it has taken.
use cpputils.Base.{
  ℕ, zero, suc, ◌-◌, refl, List, [], ◌∷◌, ◌++◌, Option, none, some, Bool, true, false, arith,
  Bool-cases, inl, inr, ltb,
}
use cpputils.ShellMenu.{
  Shell, ShellMenu, Call, subclass_set, tracked, subclass_removed, invoked, destroy,
  query_shell_menu, pick_verb, show_menu, invoke_in, numbered, named, use_verb, invoke_verb, Verb,
}
use cpputils.ShellMenu.Resources.{
  nothing, hold, hold_all, Runs, runs-append, started, holding, destroy-runs, self_equal,
}
use cpputils.ShellMenu.Query.{IsHeld, query_shell_menu-IsHeld}

module _ (shell : Shell) where
  -- The popup is shown and a command chosen.
  show-runs :
      (i p : ℕ)
      → let h = holding true [] none (started (some i) (some p)) in
        Runs h (subclass_set i ∷ tracked p ∷ subclass_removed ∷ []) h
  unfolding hold_all hold
  show-runs i p = ground (arith, self_equal i, self_equal p)

  invoke-runs :
      (i p : ℕ) (verb : Verb)
      → let h = holding true [] none (started (some i) (some p)) in Runs h (invoked i verb ∷ []) h
  unfolding hold_all hold
  invoke-runs i p verb = ground (arith, self_equal i)

  use_verb-runs :
      (times i p : ℕ) (verb : Verb)
      → Runs
          (holding true [] none (started (some i) (some p)))
          (use_verb shell times (some (started (some i) (some p), verb)))
          nothing
  unfolding use_verb
  use_verb-runs zero i p verb = destroy-runs true (some i) (some p)
  use_verb-runs (suc times) i p verb =
      let h = holding true [] none (started (some i) (some p)) in
      runs-append h h nothing (invoked i verb ∷ [])
        (use_verb shell times (some (started (some i) (some p), verb))) (invoke-runs i p verb)
        (use_verb-runs times i p verb)

  show_menu-runs :
      (queried : Option ShellMenu × List Call) (shift control : Bool) (times : ℕ)
      → IsHeld shell queried.0 queried.1
      → let picked = show_menu shell shift control queried in
        Runs nothing (picked.1 ++ use_verb shell times picked.0) nothing
  unfolding show_menu IsHeld use_verb hold_all
  show_menu-runs (none, calls) shift control times held =
      runs-append nothing nothing nothing calls [] held refl
  show_menu-runs (some m, calls) shift control times (i, p, e, held) =
      let left = started (some i) (some p) in
      let h = holding true [] none left in
      let showing = subclass_set i ∷ tracked p ∷ subclass_removed ∷ [] in
      let shown = runs-append nothing h h calls showing held (show-runs i p) in
      elim (Bool-cases (ltb (shell.track_popup_menu p) 1)) [
        | inl dismissed ↦
            rw (e, dismissed)
              (runs-append nothing nothing nothing (calls ++ showing ++ destroy left) []
                (runs-append nothing h nothing (calls ++ showing) (destroy left) shown
                  (destroy-runs true (some i) (some p)))
                refl)
        | inr chosen ↦
            rw (e, chosen)
              (runs-append nothing h nothing (calls ++ showing) _ shown
                (use_verb-runs times i p (numbered (shell.track_popup_menu p - 1) shift control)))
      ]

  -- Whatever the shell's functions return: the calls of `pickShellContextMenuVerb`, those of the
  -- function that it returned, called any number of times, and those of that function's end are legal
  -- one after the other, and in the end nothing is held.
  pub pick_verb-runs :
      (paths : List (List ℕ)) (extended shift control : Bool) (times : ℕ)
      → let picked = pick_verb shell paths extended shift control in
        Runs nothing (picked.1 ++ use_verb shell times picked.0) nothing
  unfolding pick_verb
  pick_verb-runs paths extended shift control times =
      show_menu-runs (query_shell_menu shell paths extended) shift control times
        (query_shell_menu-IsHeld shell paths extended)

  invoke_in-runs :
      (verb : List ℕ) (queried : Option ShellMenu × List Call)
      → IsHeld shell queried.0 queried.1
      → Runs nothing (invoke_in shell verb queried).1 nothing
  unfolding invoke_in IsHeld
  invoke_in-runs verb (none, calls) held = held
  invoke_in-runs verb (some m, calls) (i, p, e, held) =
      let left = started (some i) (some p) in
      let h = holding true [] none left in
      rw e (
        runs-append nothing h nothing (calls ++ (invoked i (named verb) ∷ [])) (destroy left)
          (runs-append nothing h h calls (invoked i (named verb) ∷ []) held
            (invoke-runs i p (named verb)))
          (destroy-runs true (some i) (some p)))

  -- Whatever the shell's functions return, the calls of `invokeShellVerb` are legal one after the
  -- other, and in the end nothing is held.
  pub invoke_verb-runs :
      (paths : List (List ℕ)) (verb : List ℕ)
      → Runs nothing (invoke_verb shell paths verb).1 nothing
  unfolding invoke_verb
  invoke_verb-runs paths verb =
      invoke_in-runs verb (query_shell_menu shell paths false)
        (query_shell_menu-IsHeld shell paths false)
