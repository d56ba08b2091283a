-- ===== src/Enum/Names.antt =====
-- Which name a value has.
use cpputils.Base.{
  ℕ, zero, suc, ◌<◌, ◌≡◌, refl, List, [], ◌∷◌, some, Bool, true, false, get_elem?, arith,
}
use cpputils.Enum.{EnumItem, find_item, is_known_item, item_name, own_name, of_item}

module _ {E : Type 0} (same : E → E → Bool) where
  -- No value stands twice in the table.
  abbrev pub IsDistinct : List (EnumItem E) → Type 0
  IsDistinct items =
      (i j : ℕ) (x y : EnumItem E)
      → i < j
      → get_elem? items i ≡ some x
      → get_elem? items j ≡ some y
      → same x.id y.id ≡ false

  find_item-distinct :
      (items : List (EnumItem E)) (i : ℕ) (item : EnumItem E)
      → ((e : E) → same e e ≡ true)
      → IsDistinct items
      → get_elem? items i ≡ some item
      → find_item same items item.id ≡ some item
  unfolding find_item
  find_item-distinct [] i item eq distinct at_i = ground arith
  find_item-distinct (x ∷ xs) zero item eq distinct at_i = ground (arith, eq item.id)
  find_item-distinct (x ∷ xs) (suc i) item eq distinct at_i = ground (
    arith,
    distinct 0 (suc i) x item (ground arith) refl at_i,
    find_item-distinct xs i item eq (λ j k y z lt. distinct (suc j) (suc k) y z (ground arith))
        at_i,
  )

  -- In a table with no value twice, an `Enum` made from an item has the item's name, and the value is
  -- known.
  pub own_name-of_item :
      (items : List (EnumItem E)) (i : ℕ) (item : EnumItem E)
      → ((e : E) → same e e ≡ true)
      → IsDistinct items
      → get_elem? items i ≡ some item
      → (own_name same items (of_item item) ≡ item.name) × (is_known_item same items item.id ≡ true)
  unfolding own_name item_name is_known_item
  own_name-of_item items i item eq distinct at_i =
      ground (arith, find_item-distinct items i item eq distinct at_i)
