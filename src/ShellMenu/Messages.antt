-- ===== src/ShellMenu/Messages.antt =====
-- system/shellcontextmenu.cpp, `forwardMenuMessages`.
use cpputils.Base.{
  ℕ, ◌≡◌, ◌≢◌, refl, Option, none, some, Bool, true, if◌then◌else◌, ◌⊎◌, inl, inr, arith,
}

-- The four menu messages that `forwardMenuMessages` looks for, and the others.
pub data Message : Type 0 where
  init_menu_popup : Message
  draw_item : Message
  measure_item : Message
  menu_char : Message
  other_message : Message

-- What handles a message, with the result that it gives.
pub data Handled : Type 0 where
  by_menu : ℕ → Handled
  by_default : Handled

-- What the menu supports: `handle_menu_msg2` and `handle_menu_msg` are `none` where
-- `QueryInterface` has no such interface, and then say whether the call succeeds.
unfoldable pub forward : Message → Option (Option ℕ) → Option Bool → Handled
forward other_message handle_menu_msg2 handle_menu_msg = by_default
forward message (some (some result)) handle_menu_msg = by_menu result
forward message (some none) handle_menu_msg = by_default
forward menu_char none handle_menu_msg = by_default
forward message none none = by_default
forward message none (some ok) = if ok then by_menu 0 else by_default

-- The result that the menu gives through either interface.
abbrev IsFromMenu : Message → Option (Option ℕ) → Option Bool → ℕ → Type 0
IsFromMenu message handle_menu_msg2 handle_menu_msg result =
    (handle_menu_msg2 ≡ some (some result))
    ⊎ ((handle_menu_msg2 ≡ none)
        × (message ≢ menu_char)
        × (handle_menu_msg ≡ some true)
        × (result ≡ 0))

-- The three messages that both interfaces take.
both_interfaces :
    (message : Message) (handle_menu_msg2 : Option (Option ℕ)) (handle_menu_msg : Option Bool)
    (result : ℕ)
    → message ≢ other_message
    → message ≢ menu_char
    → forward message handle_menu_msg2 handle_menu_msg ≡ by_menu result
    → IsFromMenu message handle_menu_msg2 handle_menu_msg result
unfolding forward
both_interfaces other_message h3 h2 result ne ne' h = absurd (ne refl)
both_interfaces menu_char h3 h2 result ne ne' h = absurd (ne' refl)
both_interfaces init_menu_popup (some (some r)) h2 result ne ne' h = inl (ground arith)
both_interfaces init_menu_popup (some none) h2 result ne ne' h = absurd (ground arith)
both_interfaces init_menu_popup none none result ne ne' h = absurd (ground arith)
both_interfaces init_menu_popup none (some b) result ne ne' h = inr (ground arith)
both_interfaces draw_item (some (some r)) h2 result ne ne' h = inl (ground arith)
both_interfaces draw_item (some none) h2 result ne ne' h = absurd (ground arith)
both_interfaces draw_item none none result ne ne' h = absurd (ground arith)
both_interfaces draw_item none (some b) result ne ne' h = inr (ground arith)
both_interfaces measure_item (some (some r)) h2 result ne ne' h = inl (ground arith)
both_interfaces measure_item (some none) h2 result ne ne' h = absurd (ground arith)
both_interfaces measure_item none none result ne ne' h = absurd (ground arith)
both_interfaces measure_item none (some b) result ne ne' h = inr (ground arith)

-- The menu gives a message's result only if the message is one of the four, and then either through
-- `IContextMenu3`, or, where there is no such interface and the message is not `WM_MENUCHAR`, through
-- `IContextMenu2`, with the result 0.
pub forward-by_menu :
    (message : Message) (handle_menu_msg2 : Option (Option ℕ)) (handle_menu_msg : Option Bool)
    (result : ℕ)
    → forward message handle_menu_msg2 handle_menu_msg ≡ by_menu result
    → (message ≢ other_message) × IsFromMenu message handle_menu_msg2 handle_menu_msg result
unfolding forward
forward-by_menu other_message h3 h2 result h = absurd (ground arith)
forward-by_menu menu_char (some (some r)) h2 result h = ((λ e. ground arith), inl (ground arith))
forward-by_menu menu_char (some none) h2 result h = absurd (ground arith)
forward-by_menu menu_char none h2 result h = absurd (ground arith)
forward-by_menu init_menu_popup h3 h2 result h =
    let ne : init_menu_popup ≢ other_message = λ e. ground arith in
    (ne, both_interfaces init_menu_popup h3 h2 result ne (λ e. ground arith) h)
forward-by_menu draw_item h3 h2 result h =
    let ne : draw_item ≢ other_message = λ e. ground arith in
    (ne, both_interfaces draw_item h3 h2 result ne (λ e. ground arith) h)
forward-by_menu measure_item h3 h2 result h =
    let ne : measure_item ≢ other_message = λ e. ground arith in
    (ne, both_interfaces measure_item h3 h2 result ne (λ e. ground arith) h)
