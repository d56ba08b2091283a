-- ===== src/Enum.antt =====
-- lang/enum.h: `Enum<EnumType>`, a value of an enumeration with a table of names. The table
-- `_items` is the instantiation's; debug assertions have no effect on the value.
pub mod Names
use cpputils.Base.{ℕ, List, [], ◌∷◌, Option, none, some, Bool, true, false, not, if◌then◌else◌}

pub record EnumItem (E : Type 0) : Type 0 where
  pub id : E
  pub name : List ℕ

pub record Enum (E : Type 0) : Type 0 where
  pub id : E

module _ {E : Type 0} (same : E → E → Bool) where
  -- `EnumItem::operator==` and `operator!=`
  abbrev is_item : EnumItem E → E → Bool
  is_item item value = same item.id value

  abbrev is_other_item : EnumItem E → E → Bool
  is_other_item item value = not (is_item item value)

  -- `std::find_if`; `none` is `_items.cend()`.
  unfoldable pub find_item : List (EnumItem E) → E → Option (EnumItem E)
  find_item [] id = none
  find_item (item ∷ items) id = if same item.id id then some item else find_item items id

  unfoldable pub is_known_item : List (EnumItem E) → E → Bool
  unfolding find_item
  is_known_item items id = elim (find_item items id) [ none ↦ false | some item ↦ true ]

  -- The static `itemName`; an unknown value has the empty name.
  unfoldable pub item_name : List (EnumItem E) → E → List ℕ
  unfolding find_item
  item_name items value = elim (find_item items value) [ none ↦ [] | some item ↦ item.name ]

-- The constructors, from a value, from an item and with none, and the assignment of a value.
abbrev of_value : {E : Type 0} → E → Enum E
of_value value = record { id = value }

abbrev pub of_item : {E : Type 0} → EnumItem E → Enum E
of_item item = record { id = item.id }

abbrev initial : {E : Type 0} → EnumItem E → List (EnumItem E) → Enum E
initial first items = record { id = first.id }

abbrev pub assign : {E : Type 0} → E → Enum E → Enum E
assign value e = record e { id = value }

unfoldable pub own_name : {E : Type 0} → (E → E → Bool) → List (EnumItem E) → Enum E → List ℕ
unfolding item_name
own_name same items e = item_name same items e.id
