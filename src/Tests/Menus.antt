-- ===== src/Tests/Menus.antt =====
-- system/shellcontextmenu.cpp with a shell that knows two files.
use cpputils.Base.{ℕ, ◌+◌, List, [], ◌∷◌, ◌++◌, some, true, false}
use cpputils.ShellMenu.{Shell, s_ok, s_false, pick_verb, use_verb, invoke_verb}
use cpputils.ShellMenu.Resources.{nothing, Runs}
use cpputils.ShellMenu.Runs.{pick_verb-runs, invoke_verb-runs}

abbrev explorer : Shell
explorer = record {
  co_initialize = s_false;
  make_preferred = λ name. name;
  parse_display_name = λ name. some 100;
  bind_to_parent = λ item. some 7;
  find_last_id = λ item. item + 1;
  get_ui_object_of = λ folder children. some 8;
  create_popup_menu = some 9;
  query_context_menu = λ menu popup extended. s_ok;
  track_popup_menu = λ popup. 3;
  invoke_command = λ menu. s_ok;
}

abbrev files : List (List ℕ)
files = (b'a' ∷ []) ∷ (b'b' ∷ []) ∷ []

pick_verb-runs_example :
    Runs nothing
      ((pick_verb explorer files true false true).1
        ++ use_verb explorer 2 (pick_verb explorer files true false true).0)
      nothing
pick_verb-runs_example = pick_verb-runs explorer files true false true 2

invoke_verb-runs_example : Runs nothing (invoke_verb explorer files (b'o' ∷ [])).1 nothing
invoke_verb-runs_example = invoke_verb-runs explorer files (b'o' ∷ [])
