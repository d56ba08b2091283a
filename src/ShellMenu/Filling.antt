-- ===== src/ShellMenu/Filling.antt =====
-- The paths are parsed, and the menu and its popup are filled.
use cpputils.Base.{
  ℕ, ◌≡◌, refl, List, [], ◌∷◌, ◌++◌, map, Option, none, some, Bool, true, false, arith,
  Option-cases, inl, inr,
}
use cpputils.ShellMenu.{
  Shell, ShellMenu, folder_released, Made, parse_all, fill_popup, fill_menu, Hresult, s_ok, s_false,
  other_success, failure, succeeded,
}
use cpputils.ShellMenu.Resources.{
  hold, hold_all, Runs, runs-append, started, holding, self_equal, fills,
}

-- What a block that works on the object leaves: `menu` and `popup` in it, both where the block came
-- to its end, and no more names than before.
pub record IsKept (items : List ℕ) (folder folder' : Option ℕ) (m : ShellMenu)
    (made : Made ShellMenu) : Type 0 where
  pub menu : Option ℕ
  pub popup : Option ℕ
  pub is_filled : Bool
  pub object : made.filled ≡ started menu popup
  pub whole :
      made.finished ≡ true
      → (i : ℕ) × (p : ℕ) × (menu ≡ some i) × (popup ≡ some p) × (is_filled ≡ true)
  pub runs :
      Runs
        (holding false items folder m)
        made.calls
        (holding is_filled items folder' (started menu popup))

succeeded-fills : (hr : Hresult) → succeeded hr ≡ true → fills hr ≡ true
succeeded-fills s_ok h = refl
succeeded-fills s_false h = refl
succeeded-fills other_success h = refl
succeeded-fills failure h = absurd (ground arith)

module _ (shell : Shell) where
  pub parse_all-runs :
      (paths : List (List ℕ)) (items : List ℕ)
      → Runs
          (holding false items none (started none none))
          (parse_all shell paths items).calls
          (holding false (parse_all shell paths items).filled none (started none none))
  unfolding parse_all hold_all hold
  parse_all-runs [] items = refl
  parse_all-runs (p ∷ paths) items =
      elim (Option-cases (shell.parse_display_name (shell.make_preferred p))) [
        | inl failed ↦ ground arith
        | inr (item, some_item) ↦
            let rest = parse_all-runs paths (items ++ item ∷ []) in ground arith
      ]

  fill_popup-IsKept :
      (extended : Bool) (items : List ℕ) (folder menu : ℕ)
      → IsKept items
          (some folder)
          (some folder)
          (started (some menu) none)
          (fill_popup shell extended menu (started (some menu) none))
  unfolding fill_popup hold_all hold
  fill_popup-IsKept extended items folder menu = elim (Option-cases shell.create_popup_menu) [
    | inl failed ↦ rw failed (record {
      menu = some menu;
      popup = none;
      is_filled = false;
      object = refl;
      whole = λ h. absurd (ground arith);
      runs = refl;
    })
    | inr (p, created) ↦ rw created (record {
      menu = some menu;
      popup = some p;
      is_filled = fills (shell.query_context_menu menu p extended);
      object = refl;
      whole =
          λ h. (menu, p, refl, refl, succeeded-fills (shell.query_context_menu menu p extended) h);
      runs = ground (arith, self_equal menu, self_equal p);
    })
  ]

  -- Then the folder is released.
  release-runs :
      (filled : Bool) (folder : ℕ) (items : List ℕ) (m : ShellMenu)
      → m.initialization_succeeded ≡ true
      → Runs
          (holding filled items (some folder) m)
          (folder_released folder ∷ [])
          (holding filled items none m)
  unfolding hold_all hold
  release-runs filled folder items m c = ground (arith, self_equal folder)

  pub fill_menu-IsKept :
      (extended : Bool) (items : List ℕ) (folder : ℕ)
      → IsKept items
          (some folder)
          none
          (started none none)
          (fill_menu shell extended items folder (started none none))
  unfolding fill_menu hold_all hold
  fill_menu-IsKept extended items folder =
      let children : List ℕ = map shell.find_last_id items in
      elim (Option-cases (shell.get_ui_object_of folder children)) [
        | inl failed ↦
            rw (fill_menu, failed)
              (record {
                menu = none;
                popup = none;
                is_filled = false;
                object = refl;
                whole = λ h. absurd (ground arith);
                runs = ground (arith, self_equal folder);
              })
        | inr (menu, found) ↦
            let kept = fill_popup-IsKept extended items folder menu in
            let left = started kept.menu kept.popup in
            let inner =
              runs-append (holding false items (some folder) (started (some menu) none))
                (holding kept.is_filled items (some folder) left)
                (holding kept.is_filled items none left)
                (fill_popup shell extended menu (started (some menu) none)).calls
                (folder_released folder ∷ []) kept.runs
                (release-runs kept.is_filled folder items left refl) in
            rw (fill_menu, found)
              (record {
                menu = kept.menu;
                popup = kept.popup;
                is_filled = kept.is_filled;
                object = kept.object;
                whole = kept.whole;
                runs = ground (arith, self_equal folder, inner);
              })
      ]
