-- ===== src/ShellMenu/Query.antt =====
-- `queryShellMenu` releases what it has taken, except for a menu that it returns.
use cpputils.Base.{
  ℕ, ◌≡◌, refl, ◌∙◌, ap₂, List, [], ◌∷◌, map, Option, none, some, Bool, true, false, arith,
  Option-cases, Bool-cases, inl, inr,
}
use cpputils.ShellMenu.{
  Shell, ShellMenu, Call, initialized, freed, is_initialized, uninitialize, destroy, parse_all,
  bind_and_fill, query_all, query_shell_menu, Hresult, s_ok, s_false, other_success, failure,
}
use cpputils.ShellMenu.Resources.{
  Held, nothing, hold, hold_all, Runs, runs-append, started, holding, destroy-runs, free-runs,
  self_equal, gives_com,
}
use cpputils.ShellMenu.Filling.{IsKept, parse_all-runs, fill_menu-IsKept}

initialized-gives : (hr : Hresult) → is_initialized hr ≡ true → gives_com hr ≡ true
initialized-gives s_ok h = refl
initialized-gives s_false h = refl
initialized-gives other_success h = absurd (ground arith)
initialized-gives failure h = absurd (ground arith)

uninitialized-gives : (hr : Hresult) → is_initialized hr ≡ false → gives_com hr ≡ false
uninitialized-gives s_ok h = absurd (ground arith)
uninitialized-gives s_false h = absurd (ground arith)
uninitialized-gives other_success h = refl
uninitialized-gives failure h = refl

module _ (shell : Shell) where
  bind_and_fill-IsKept :
      (extended : Bool) (items : List ℕ)
      → IsKept items none none
          (started none none)
          (bind_and_fill shell extended items (started none none))
  unfolding bind_and_fill hold_all hold
  bind_and_fill-IsKept extended [] = record {
    menu = none;
    popup = none;
    is_filled = false;
    object = refl;
    whole = λ h. absurd (ground arith);
    runs = refl;
  }
  bind_and_fill-IsKept extended (front ∷ items) = elim (Option-cases (shell.bind_to_parent front)) [
    | inl failed ↦
        rw (bind_and_fill, failed)
          (record {
            menu = none;
            popup = none;
            is_filled = false;
            object = refl;
            whole = λ h. absurd (ground arith);
            runs = ground (arith, self_equal front);
          })
    | inr (folder, found) ↦
        let kept = fill_menu-IsKept shell extended (front ∷ items) folder in
        rw (bind_and_fill, found)
          (record {
            menu = kept.menu;
            popup = kept.popup;
            is_filled = kept.is_filled;
            object = kept.object;
            whole = kept.whole;
            runs = ground (arith, self_equal front, kept.runs);
          })
  ]

  query_all-IsKept :
      (paths : List (List ℕ)) (extended : Bool)
      → IsKept [] none none (started none none) (query_all shell paths extended (started none none))
  unfolding query_all
  query_all-IsKept paths extended =
      let names = parse_all shell paths [] in
      let freeing = map freed names.filled in
      let parsing = parse_all-runs shell paths [] in
      elim (Bool-cases names.finished) [
        | inl all_parsed ↦
            let kept = bind_and_fill-IsKept extended names.filled in
            let left = started kept.menu kept.popup in
            rw (query_all, all_parsed)
              (record {
                menu = kept.menu;
                popup = kept.popup;
                is_filled = kept.is_filled;
                object = kept.object;
                whole = kept.whole;
                runs =
                    runs-append _ (holding kept.is_filled names.filled none left) _ _ freeing
                      (runs-append _ (holding false names.filled none (started none none)) _
                        names.calls _ parsing kept.runs)
                      (free-runs kept.is_filled names.filled none kept.menu kept.popup);
              })
        | inr not_parsed ↦
            rw (query_all, not_parsed)
              (record {
                menu = none;
                popup = none;
                is_filled = false;
                object = refl;
                whole = λ h. absurd (ground arith);
                runs =
                    runs-append _ (holding false names.filled none (started none none)) _
                      names.calls freeing parsing (free-runs false names.filled none none none);
              })
      ]

  initialize-runs :
      (calls : List Call) (h : Held)
      → is_initialized shell.co_initialize ≡ true
      → Runs (holding false [] none (started none none)) calls h
      → Runs nothing (initialized shell.co_initialize ∷ calls) h
  unfolding hold_all hold
  initialize-runs calls h ok rest = ground (arith, initialized-gives shell.co_initialize ok)

  -- What the outcome of `queryShellMenu` holds: nothing, or a filled menu.
  unfoldable pub IsHeld : Option ShellMenu → List Call → Type 0
  IsHeld none calls = Runs nothing calls nothing
  IsHeld (some m) calls =
      (i : ℕ) × (p : ℕ) × (m ≡ started (some i) (some p))
      × Runs nothing calls (holding true [] none (started (some i) (some p)))

  pub query_shell_menu-IsHeld :
      (paths : List (List ℕ)) (extended : Bool)
      → IsHeld (query_shell_menu shell paths extended).0 (query_shell_menu shell paths extended).1
  unfolding query_shell_menu IsHeld hold_all hold destroy uninitialize
  query_shell_menu-IsHeld [] extended = refl
  query_shell_menu-IsHeld (p ∷ paths) extended =
      elim (Bool-cases (is_initialized shell.co_initialize)) [
        | inl ok ↦
            let kept = query_all-IsKept (p ∷ paths) extended in
            let made = query_all shell (p ∷ paths) extended (started none none) in
            let runs =
              initialize-runs made.calls
                (holding kept.is_filled [] none (started kept.menu kept.popup)) ok kept.runs in
            elim (Bool-cases made.finished) [
              | inl finished ↦
                  let (i, p', has_menu, has_popup, is_full) = kept.whole finished in
                  let both : started kept.menu kept.popup ≡ started (some i) (some p') =
                    ap₂ started has_menu has_popup in
                  rw (query_shell_menu, ok, finished)
                    (
                      i,
                      p',
                      kept.object ∙ both,
                      runs ∙ ap₂ (λ filled m. some (holding filled [] none m)) is_full both,
                    )
              | inr unfinished ↦
                  rw (query_shell_menu, ok, unfinished, kept.object)
                    (runs-append nothing
                      (holding kept.is_filled [] none (started kept.menu kept.popup)) nothing
                      (initialized shell.co_initialize ∷ made.calls)
                      (destroy (started kept.menu kept.popup)) runs
                      (destroy-runs kept.is_filled kept.menu kept.popup))
            ]
        | inr not_ok ↦
            let gone = uninitialized-gives shell.co_initialize not_ok in
            rw (query_shell_menu, not_ok) (ground arith)
      ]
