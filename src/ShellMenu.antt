-- ===== src/ShellMenu.antt =====
-- system/shellcontextmenu.cpp and `CoInitHelper` of system/win_utils.hpp. The shell's functions are a
-- parameter, a record of what they return; a run is written as the list of the calls that it makes,
-- the destructors' among them, in order. A pointer or a handle is a number.
pub mod Resources
pub mod Filling
pub mod Query
pub mod Runs
pub mod Messages
use cpputils.Base.{
  ℕ, zero, suc, ◌+◌, ◌-◌, List, [], ◌∷◌, ◌++◌, map, Option, none, some, Bool, true, false, not, ltb,
  ◌&&◌, if◌then◌else◌, replicate,
}

-- `HRESULT`: `S_OK`, `S_FALSE`, another code for success, or a failure.
pub data Hresult : Type 0 where
  s_ok : Hresult
  s_false : Hresult
  other_success : Hresult
  failure : Hresult

abbrev pub succeeded : Hresult → Bool
succeeded failure = false
succeeded _ = true

-- What the calls return. A pointer that a call fills in is `none` where the call fails.
pub record Shell : Type 0 where
  pub co_initialize : Hresult
  pub make_preferred : List ℕ → List ℕ
  pub parse_display_name : List ℕ → Option ℕ
  pub bind_to_parent : ℕ → Option ℕ
  pub find_last_id : ℕ → ℕ
  pub get_ui_object_of : ℕ → List ℕ → Option ℕ
  pub create_popup_menu : Option ℕ
  pub query_context_menu : ℕ → ℕ → Bool → Hresult
  pub track_popup_menu : ℕ → ℕ
  pub invoke_command : ℕ → Hresult

-- What a verb is invoked by.
pub data Verb : Type 0 where
  numbered : ℕ → Bool → Bool → Verb
  named : List ℕ → Verb

pub data Call : Type 0 where
  initialized : Hresult → Call
  uninitialized : Call
  parsed : List ℕ → Option ℕ → Call
  freed : ℕ → Call
  bound : ℕ → Option ℕ → Call
  folder_released : ℕ → Call
  ui_object : ℕ → List ℕ → Option ℕ → Call
  menu_released : ℕ → Call
  popup_created : Option ℕ → Call
  popup_destroyed : ℕ → Call
  queried : ℕ → ℕ → Bool → Hresult → Call
  subclass_set : ℕ → Call
  tracked : ℕ → Call
  subclass_removed : Call
  invoked : ℕ → Verb → Call

-- `CoInitHelper`'s member and those of `ShellMenu`.
pub record ShellMenu : Type 0 where
  pub initialization_succeeded : Bool
  pub menu : Option ℕ
  pub popup : Option ℕ

-- The constructor of `CoInitHelper`.
abbrev pub is_initialized : Hresult → Bool
is_initialized s_ok = true
is_initialized s_false = true
is_initialized _ = false

-- Its destructor.
unfoldable pub uninitialize : Bool → List Call
uninitialize succeeded_before = if succeeded_before then uninitialized ∷ [] else []

-- `~ShellMenu`, then the members from the last to the first.
unfoldable pub destroy : ShellMenu → List Call
unfolding uninitialize
destroy m =
    (elim m.popup as (λ _. List Call) [ none ↦ [] | some p ↦ popup_destroyed p ∷ [] ])
    ++ (elim m.menu as (λ _. List Call) [ none ↦ [] | some i ↦ menu_released i ∷ [] ])
    ++ uninitialize m.initialization_succeeded

-- What a block has made: whether it came to its end, the object that it filled, its calls.
pub record Made (A : Type 0) : Type 0 where
  pub finished : Bool
  pub filled : A
  pub calls : List Call

module _ (shell : Shell) where
  -- The loop over the paths; `items` are those parsed before.
  unfoldable pub parse_all : List (List ℕ) → List ℕ → Made (List ℕ)
  parse_all [] items = record { finished = true; filled = items; calls = [] }
  parse_all (p ∷ paths) items =
      let name = shell.make_preferred p in
      elim (shell.parse_display_name name) as (λ _. Made (List ℕ)) [
        | none ↦ record { finished = false; filled = items; calls = parsed name none ∷ [] }
        | some item ↦
            let rest = parse_all paths (items ++ item ∷ []) in
            record rest { calls = parsed name (some item) ∷ rest.calls }
      ]

  -- From `CreatePopupMenu` on.
  unfoldable pub fill_popup : Bool → ℕ → ShellMenu → Made ShellMenu
  fill_popup extended menu m = elim shell.create_popup_menu as (λ _. Made ShellMenu) [
    | none ↦ record { finished = false; filled = m; calls = popup_created none ∷ [] }
    | some p ↦
        let hr = shell.query_context_menu menu p extended in
        record {
          finished = succeeded hr;
          filled = record m { popup = some p };
          calls = popup_created (some p) ∷ queried menu p extended hr ∷ [];
        }
  ]

  -- From `GetUIObjectOf` on, in the life of `folder`.
  unfoldable pub fill_menu : Bool → List ℕ → ℕ → ShellMenu → Made ShellMenu
  unfolding fill_popup
  fill_menu extended items folder m =
      let children = map shell.find_last_id items in
      elim (shell.get_ui_object_of folder children) as (λ _. Made ShellMenu) [
        | none ↦ record {
          finished = false;
          filled = m;
          calls = ui_object folder children none ∷ folder_released folder ∷ [];
        }
        | some menu ↦
            let made = fill_popup extended menu (record m { menu = some menu }) in
            record made {
              calls =
                  ui_object folder children (some menu) ∷ made.calls ++ folder_released folder ∷ [];
            }
      ]

  -- From `SHBindToParent` on, in the life of `items`; `items.front()` is the first.
  unfoldable pub bind_and_fill : Bool → List ℕ → ShellMenu → Made ShellMenu
  unfolding fill_menu
  bind_and_fill extended [] m = record { finished = false; filled = m; calls = [] }
  bind_and_fill extended (front ∷ items) m =
      elim (shell.bind_to_parent front) as (λ _. Made ShellMenu) [
        | none ↦ record { finished = false; filled = m; calls = bound front none ∷ [] }
        | some folder ↦
            let made = fill_menu extended (front ∷ items) folder m in
            record made { calls = bound front (some folder) ∷ made.calls }
      ]

  -- After COM is there: the paths, and what follows in the life of `items`.
  unfoldable pub query_all : List (List ℕ) → Bool → ShellMenu → Made ShellMenu
  unfolding parse_all bind_and_fill
  query_all paths extended m =
      let names = parse_all paths [] in
      let freeing = map freed names.filled in
      if names.finished
      then (let made = bind_and_fill extended names.filled m in
          record made { calls = names.calls ++ made.calls ++ freeing })
      else record { finished = false; filled = m; calls = names.calls ++ freeing }

  -- `queryShellMenu`: what it returns, and its calls; where it returns null the object dies.
  unfoldable pub query_shell_menu : List (List ℕ) → Bool → Option ShellMenu × List Call
  unfolding query_all destroy
  query_shell_menu [] extended = (none, [])
  query_shell_menu (p ∷ paths) extended =
      let hr = shell.co_initialize in
      let blank : ShellMenu = record {
        initialization_succeeded = is_initialized hr;
        menu = none;
        popup = none;
      } in
      if is_initialized hr
      then (let made = query_all (p ∷ paths) extended blank in
          if made.finished
          then (some made.filled, initialized hr ∷ made.calls)
          else (none, initialized hr ∷ made.calls ++ destroy made.filled))
      else (none, initialized hr ∷ destroy blank)

  -- `shellMenu->menu->InvokeCommand`, `shellMenu->popup`; neither is null in a menu that was returned.
  abbrev pub menu_of : ShellMenu → ℕ
  menu_of m = elim m.menu as (λ _. ℕ) [ none ↦ 0 | some i ↦ i ]

  abbrev pub popup_of : ShellMenu → ℕ
  popup_of m = elim m.popup as (λ _. ℕ) [ none ↦ 0 | some p ↦ p ]

  -- `pickShellContextMenuVerb` after the query: the menu is shown and a command chosen.
  unfoldable pub show_menu :
      Bool → Bool → Option ShellMenu × List Call → Option (ShellMenu × Verb) × List Call
  unfolding destroy
  show_menu shift control (none, calls) = (none, calls)
  show_menu shift control (some m, calls) =
      let command = shell.track_popup_menu (popup_of m) in
      let shown =
        calls ++ (subclass_set (menu_of m) ∷ tracked (popup_of m) ∷ subclass_removed ∷ []) in
      if ltb command 1
      then (none, shown ++ destroy m)
      else (some (m, numbered (command - 1) shift control), shown)

  -- `pickShellContextMenuVerb`: the menu and the verb that the returned function holds. `extended`,
  -- `shift` and `control` are what `GetKeyState` says before and after the choice.
  unfoldable pub pick_verb :
      List (List ℕ) → Bool → Bool → Bool → Option (ShellMenu × Verb) × List Call
  unfolding show_menu query_shell_menu
  pick_verb paths extended shift control = show_menu shift control (query_shell_menu paths extended)

  -- The returned function's life: it is called some number of times, and then it dies.
  unfoldable pub use_verb : ℕ → Option (ShellMenu × Verb) → List Call
  unfolding destroy
  use_verb times none = []
  use_verb zero (some (m, verb)) = destroy m
  use_verb (suc times) (some (m, verb)) = invoked (menu_of m) verb ∷ use_verb times (some (m, verb))

  -- `invokeShellVerb` after the query.
  unfoldable pub invoke_in : List ℕ → Option ShellMenu × List Call → Bool × List Call
  unfolding destroy
  invoke_in verb (none, calls) = (false, calls)
  invoke_in verb (some m, calls) = (
    succeeded (shell.invoke_command (menu_of m)),
    calls ++ (invoked (menu_of m) (named verb) ∷ []) ++ destroy m,
  )

  -- `invokeShellVerb`
  unfoldable pub invoke_verb : List (List ℕ) → List ℕ → Bool × List Call
  unfolding invoke_in query_shell_menu
  invoke_verb paths verb = invoke_in verb (query_shell_menu paths false)
