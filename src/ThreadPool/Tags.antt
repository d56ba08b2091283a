-- ===== src/ThreadPool/Tags.antt =====
-- `State::tagStates`, the map from owner tags to `TaskTagState`. Tasks hold raw pointers to its
-- elements, so an element has an address, and a pointer may outlive what it points to.
use cpputils.Base.{
  ℕ, suc, ◌≡◌, List, [], ◌∷◌, Option, none, some, Bool, true, false, ◌==◌, if◌then◌else◌, one_if,
  arith, add64, sub64, Bool-cases, inl, inr,
}

-- `TaskTagState`
pub record TagState : Type 0 where
  pub outstanding : ℕ
  pub retired : Bool

-- An element of the map.
pub record Node : Type 0 where
  pub tag : ℕ
  pub address : ℕ
  pub state : TagState

-- No two elements ever made have one address.
pub record Tags : Type 0 where
  pub nodes : List Node
  pub next_address : ℕ

-- `tagStates.find(tag)`, as the address of what it finds.
unfoldable pub find : ℕ → List Node → Option ℕ
find t [] = none
find t (x ∷ xs) = if x.tag == t then some x.address else find t xs

-- What a pointer points to; `none`: it dangles.
unfoldable pub deref : ℕ → List Node → Option TagState
deref p [] = none
deref p (x ∷ xs) = if x.address == p then some x.state else deref p xs

-- A write through a pointer.
unfoldable pub modify : ℕ → (TagState → TagState) → List Node → List Node
modify p f [] = []
modify p f (x ∷ xs) = (if x.address == p then record x { state = f x.state } else x) ∷ modify p f xs

unfoldable pub remove : ℕ → List Node → List Node
remove p [] = []
remove p (x ∷ xs) = if x.address == p then remove p xs else x ∷ remove p xs

abbrev new_state : TagState
new_state = record { outstanding = 0; retired = false }

-- `&tagStates.try_emplace(tag).first->second`
unfoldable pub try_emplace : ℕ → Tags → ℕ × Tags
unfolding find
try_emplace t m = elim (find t m.nodes) [
  | some p ↦ (p, m)
  | none ↦ (
    m.next_address,
    record {
      nodes = record { tag = t; address = m.next_address; state = new_state } ∷ m.nodes;
      next_address = suc m.next_address;
    },
  )
]

-- The end of `retire`: the element goes if the tag still leads to it.
unfoldable pub erase_own : ℕ → ℕ → Tags → Tags
unfolding find remove
erase_own t p m = elim (find t m.nodes) [
  | some q ↦ if q == p then record m { nodes = remove p m.nodes } else m
  | none ↦ m
]

-- `++`, `--` and `-=` on `outstandingTaskCount`, and setting `retired`.
abbrev pub count_up : TagState → TagState
count_up s = record s { outstanding = add64 s.outstanding 1 }

abbrev pub count_down : ℕ → TagState → TagState
count_down k s = record s { outstanding = sub64 s.outstanding k }

abbrev pub set_retired : TagState → TagState
set_retired s = record s { retired = true }

abbrev outstanding_of : Option TagState → ℕ
outstanding_of none = 0
outstanding_of (some s) = s.outstanding

abbrev retired_of : Option TagState → ℕ
retired_of none = 0
retired_of (some s) = one_if s.retired

-- How many tasks the element counts, and whether it is retired; 0 if the pointer dangles.
abbrev pub outstanding_at : ℕ → Tags → ℕ
outstanding_at p m = outstanding_of (deref p m.nodes)

abbrev pub retired_at : ℕ → Tags → ℕ
retired_at p m = retired_of (deref p m.nodes)

abbrev apply : (TagState → TagState) → Option TagState → Option TagState
apply f none = none
apply f (some s) = some (f s)

pub deref-modify :
    (p q : ℕ) (f : TagState → TagState) (xs : List Node)
    → deref p (modify q f xs) ≡ (if q == p then apply f (deref p xs) else deref p xs)
unfolding deref modify
deref-modify p q f [] = ground arith
deref-modify p q f (x ∷ xs) = ground (arith, deref-modify p q f xs)

pub deref-remove :
    (p q : ℕ) (xs : List Node) → deref p (remove q xs) ≡ (if q == p then none else deref p xs)
unfolding deref remove
deref-remove p q [] = ground arith
deref-remove p q (x ∷ xs) = ground (arith, deref-remove p q xs)

-- What the map holds under a tag is there.
pub deref-find :
    (t p : ℕ) (xs : List Node) → find t xs ≡ some p → (s : TagState) × (deref p xs ≡ some s)
unfolding deref find
deref-find t p [] e = ground arith
deref-find t p (x ∷ xs) e = elim (Bool-cases (x.address == p)) [
  | inl here ↦ (x.state, rw here)
  | inr there ↦ let (s, h) = deref-find t p xs (ground arith) in (s, ground arith)
]
