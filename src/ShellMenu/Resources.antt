-- ===== src/ShellMenu/Resources.antt =====
-- An independent account of what the calls hold, and that each run keeps to it.
use cpputils.Base.{
  ℕ, ◌≡◌, refl, List, [], ◌∷◌, ◌++◌, map, Option, none, some, Bool, true, false, not, ◌&&◌, ◌==◌,
  ==_iff, if◌then◌else◌, arith, Option-cases, inl, inr,
}
use cpputils.ShellMenu.{
  ShellMenu, Call, initialized, uninitialized, parsed, freed, bound, folder_released, ui_object,
  menu_released, popup_created, popup_destroyed, queried, subclass_set, tracked, subclass_removed,
  invoked, uninitialize, destroy, Hresult, s_ok, s_false, other_success, failure,
}

-- What is held: COM, the parsed names, the folder, the menu, the popup, whether the popup has been
-- filled, and the subclass on the owner's window.
pub record Held : Type 0 where
  pub has_com : Bool
  pub items : List ℕ
  pub folder : Option ℕ
  pub menu : Option ℕ
  pub popup : Option ℕ
  pub is_filled : Bool
  pub subclass : Bool

abbrev pub nothing : Held
nothing = record {
  has_com = false;
  items = [];
  folder = none;
  menu = none;
  popup = none;
  is_filled = false;
  subclass = false;
}

abbrev is : Option ℕ → ℕ → Bool
is none n = false
is (some m) n = m == n

abbrev is_none : Option ℕ → Bool
is_none none = true
is_none (some n) = false

abbrev is_nil : List ℕ → Bool
is_nil [] = true
is_nil (n ∷ ns) = false

abbrev holds : List ℕ → ℕ → Bool
holds [] n = false
holds (m ∷ ms) n = if m == n then true else holds ms n

-- The list without the first item that is `n`.
abbrev without : List ℕ → ℕ → List ℕ
without [] n = []
without (m ∷ ms) n = if m == n then ms else m ∷ without ms n

abbrev allowed : Bool → Held → Option Held
allowed ok h = if ok then some h else none

-- What the results mean: COM is there to be given back after `S_OK` and after `S_FALSE`, and a popup
-- is filled unless `QueryContextMenu` failed.
abbrev pub gives_com : Hresult → Bool
gives_com s_ok = true
gives_com s_false = true
gives_com other_success = false
gives_com failure = false

abbrev pub fills : Hresult → Bool
fills s_ok = true
fills s_false = true
fills other_success = true
fills failure = false

-- One call, where it is legal: nothing is used that is not held, a name is freed once, the popup is
-- shown only after it is filled and while the menu messages are forwarded, a verb is invoked only
-- after the popup is filled and before it is destroyed, COM goes last.
unfoldable pub hold : Call → Held → Option Held
hold (initialized hr) h = allowed (not h.has_com) (record h { has_com = gives_com hr })
hold uninitialized h =
    allowed
      (h.has_com
        && is_nil h.items
        && is_none h.folder
        && is_none h.menu
        && is_none h.popup
        && not h.subclass)
      (record h { has_com = false })
hold (parsed name none) h = allowed h.has_com h
hold (parsed name (some item)) h = allowed h.has_com (record h { items = h.items ++ item ∷ [] })
hold (freed item) h =
    allowed (h.has_com && holds h.items item) (record h { items = without h.items item })
hold (bound item folder) h =
    allowed (h.has_com && holds h.items item && is_none h.folder) (record h { folder = folder })
hold (folder_released folder) h =
    allowed (h.has_com && is h.folder folder) (record h { folder = none })
hold (ui_object folder children menu) h =
    allowed (h.has_com && is h.folder folder && is_none h.menu) (record h { menu = menu })
hold (menu_released menu) h =
    allowed (h.has_com && is h.menu menu && is_none h.popup && not h.subclass)
      (record h { menu = none })
hold (popup_created popup) h = allowed (is_none h.popup) (record h { popup = popup })
hold (popup_destroyed popup) h =
    allowed (is h.popup popup && not h.subclass) (record h { popup = none; is_filled = false })
hold (queried menu popup extended hr) h =
    allowed (h.has_com && is h.menu menu && is h.popup popup) (record h { is_filled = fills hr })
hold (subclass_set menu) h =
    allowed (is h.menu menu && not h.subclass) (record h { subclass = true })
hold (tracked popup) h = allowed (is h.popup popup && h.is_filled && h.subclass) h
hold subclass_removed h = allowed h.subclass (record h { subclass = false })
hold (invoked menu verb) h =
    allowed (h.has_com && is h.menu menu && h.is_filled && not (is_none h.popup)) h

unfoldable pub hold_all : List Call → Held → Option Held
hold_all [] h = some h
hold_all (call ∷ calls) h = elim (hold call h) as (λ _. Option Held) [
  | none ↦ none
  | some h' ↦ hold_all calls h'
]

-- Every call is legal, and what is held goes from `h` to `h'`.
abbrev pub Runs : Held → List Call → Held → Type 0
Runs h calls h' = hold_all calls h ≡ some h'

pub runs-append :
    (h g k : Held) (xs ys : List Call) → Runs h xs g → Runs g ys k → Runs h (xs ++ ys) k
unfolding hold_all
runs-append h g k [] ys first second = ground arith
runs-append h g k (x ∷ xs) ys first second = elim (Option-cases (hold x h)) [
  | inl illegal ↦ absurd (ground arith)
  | inr (h', legal) ↦
      let rest : hold_all (xs ++ ys) h' ≡ some k = runs-append h' g k xs ys (ground arith) second in
      ground arith
]

-- The object after COM is there.
abbrev pub started : Option ℕ → Option ℕ → ShellMenu
started menu popup = record { initialization_succeeded = true; menu = menu; popup = popup }

-- What an object holds, whose popup, if it has one, is filled or not, with the names and the folder
-- that its maker has.
abbrev pub holding : Bool → List ℕ → Option ℕ → ShellMenu → Held
holding filled items folder m = record {
  has_com = m.initialization_succeeded;
  items = items;
  folder = folder;
  menu = m.menu;
  popup = m.popup;
  is_filled = not (is_none m.popup) && filled;
  subclass = false;
}

pub self_equal : (n : ℕ) → (n == n) ≡ true
self_equal n = (==_iff n n).1 refl

pub destroy-runs :
    (filled : Bool) (menu popup : Option ℕ)
    → Runs (holding filled [] none (started menu popup)) (destroy (started menu popup)) nothing
unfolding destroy uninitialize hold_all hold
destroy-runs filled none none = refl
destroy-runs filled none (some p) = ground (arith, self_equal p)
destroy-runs filled (some m) none = ground (arith, self_equal m)
destroy-runs filled (some m) (some p) = ground (arith, self_equal m, self_equal p)

pub free-runs :
    (filled : Bool) (items : List ℕ) (folder menu popup : Option ℕ)
    → Runs
        (holding filled items folder (started menu popup))
        (map freed items)
        (holding filled [] folder (started menu popup))
unfolding hold_all hold
free-runs filled [] folder menu popup = refl
free-runs filled (i ∷ items) folder menu popup =
    ground (arith, self_equal i, free-runs filled items folder menu popup)
