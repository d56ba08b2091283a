-- ===== src/StorageSpeed/Links.antt =====
-- Symbolic links are followed on local mounts only, and not for ever.
use cpputils.Base.{
  ℕ, zero, suc, ◌+◌, ◌≤◌, ◌<◌, ◌≡◌, refl, List, [], ◌∷◌, Option, none, some, true, arith, ltb,
  length, take, ap, ap₂, ◌∙◌, ltb→lt, find_char, Option-cases, Bool-cases, inl, inr, ◌==◌,
  if◌then◌else◌,
}
use cpputils.StorageSpeed.{
  Mount, Firmlink, mount_for_path, visit, end_of_component, Scan, stopped, link, out_of_rounds,
  scan, hops, linked_path, after_scan, resolve_local_symlinks,
}

find_char-ge : (xs : List ℕ) (c s e : ℕ) → find_char xs c s ≡ some e → s ≤ e
unfolding find_char
find_char-ge [] c s e h = ground arith
find_char-ge (x ∷ xs) c zero e h = omega arith
find_char-ge (x ∷ xs) c (suc s) e h = elim (Option-cases (find_char xs c s)) [
  | inl nothing ↦ absurd (ground arith)
  | inr (k, found) ↦ ground (arith, find_char-ge xs c s k found)
]

-- Links are read on local mounts alone.
abbrev pub IsLocal : List Mount → List ℕ → Type 0
IsLocal mounts prefix = (m : Mount) × (mount_for_path mounts prefix ≡ some m) × (m.local ≡ true)

component_end-ge : (s : ℕ) (path : List ℕ) → s < length path → s ≤ end_of_component s path
unfolding end_of_component
component_end-ge s path h = elim (Option-cases (find_char path b'/' s)) [
  | inl nothing ↦ ground arith
  | inr (k, found) ↦ ground (arith, find_char-ge path b'/' s k found)
]

module _ (mounts : List Mount) (read read' : List ℕ → List ℕ)
    (agree : (prefix : List ℕ) → IsLocal mounts prefix → read prefix ≡ read' prefix) where
  visit-agree :
      (prefix : List ℕ)
      → visit mounts read (mount_for_path mounts prefix) prefix
        ≡ visit mounts read' (mount_for_path mounts prefix) prefix
  unfolding visit
  visit-agree prefix = elim (Option-cases (mount_for_path mounts prefix)) [
    | inl nowhere ↦ rw nowhere refl
    | inr (m, on) ↦ elim (Bool-cases m.local) [
      | inl is_local ↦ let same = agree prefix (m, on, is_local) in ground arith
      | inr remote ↦ ground arith
    ]
  ]

  scan-agree :
      (rounds s : ℕ) (path : List ℕ)
      → scan mounts read rounds s path ≡ scan mounts read' rounds s path
  unfolding scan
  scan-agree zero s path = refl
  scan-agree (suc rounds) s path =
      let same = visit-agree (take (end_of_component s path) path) in
      let rest = scan-agree rounds (end_of_component s path + 1) path in
      ap₂
        (λ v r.
          if ltb s (length path)
          then (elim v as (λ _. Scan) [
            | none ↦ stopped
            | some target ↦ elim target as (λ _. Scan) [
              | [] ↦ r
              | c ∷ cs ↦ link s (end_of_component s path) (c ∷ cs)
            ]
          ])
          else stopped)
        same rest

after_scan-agree :
    (linked : ℕ → ℕ → List ℕ → List ℕ) (f g : List ℕ → Option (List ℕ)) (left : ℕ) (path : List ℕ)
    (s : Scan)
    → ((p : List ℕ) → f p ≡ g p)
    → after_scan linked f left path s ≡ after_scan linked g left path s
unfolding after_scan
after_scan-agree linked f g left path stopped h = refl
after_scan-agree linked f g left path out_of_rounds h = refl
after_scan-agree linked f g left path (link s e target) h =
    ap (λ r. if left == 0 then some path else r) (h (linked s e target))

module _ (mounts : List Mount) (firmlinks : List Firmlink)
    (lexically_normal : List ℕ → List ℕ) where
  module _ (read read' : List ℕ → List ℕ)
      (agree : (prefix : List ℕ) → IsLocal mounts prefix → read prefix ≡ read' prefix) where
    hops-agree :
        (n : ℕ) (path : List ℕ)
        → hops mounts firmlinks lexically_normal read n path
          ≡ hops mounts firmlinks lexically_normal read' n path
    unfolding hops
    hops-agree zero path = refl
    hops-agree (suc n) path =
        let linked =
          λ (s e : ℕ) (target : List ℕ). linked_path firmlinks lexically_normal s e target path in
        ap (after_scan linked (λ p. hops mounts firmlinks lexically_normal read n p) n path)
          (scan-agree mounts read read' agree (length path + 1) 1 path)
        ∙ after_scan-agree linked (λ p. hops mounts firmlinks lexically_normal read n p)
            (λ p. hops mounts firmlinks lexically_normal read' n p) n path
            (scan mounts read' (length path + 1) 1 path) (λ p. hops-agree n p)

    -- What `readLinkTarget` would say of a path that does not lie on a local mount has no influence
    -- on the result.
    pub resolve-local_only :
        (path : List ℕ)
        → resolve_local_symlinks mounts firmlinks lexically_normal read path
          ≡ resolve_local_symlinks mounts firmlinks lexically_normal read' path
    unfolding resolve_local_symlinks
    resolve-local_only path = hops-agree 40 path

  module _ (read : List ℕ → List ℕ) where
    scan-enough :
        (rounds s : ℕ) (path : List ℕ)
        → length path < s + rounds
        → 0 < rounds
        → ¬ (scan mounts read rounds s path ≡ out_of_rounds)
    unfolding scan
    scan-enough zero s path h pos e = absurd (omega arith)
    scan-enough (suc rounds) s path h pos e = elim (Bool-cases (ltb s (length path))) [
      | inr past ↦ ground (arith, scan)
      | inl within ↦
          let ge = component_end-ge s path (ltb→lt s (length path) within) in
          ground (
            arith,
            scan,
            scan-enough rounds (end_of_component s path + 1) path (omega arith) (ground arith),
          )
    ]

    after_scan-returns :
        (linked : ℕ → ℕ → List ℕ → List ℕ) (again : List ℕ → Option (List ℕ)) (left : ℕ)
        (path : List ℕ) (s : Scan)
        → ¬ (s ≡ out_of_rounds)
        → ((p : List ℕ) → (r : List ℕ) × (again p ≡ some r))
        → (r : List ℕ) × (after_scan linked again left path s ≡ some r)
    unfolding after_scan
    after_scan-returns linked again left path stopped ne h = (path, refl)
    after_scan-returns linked again left path out_of_rounds ne h = absurd (ne refl)
    after_scan-returns linked again left path (link s e target) ne h =
        elim (Bool-cases (left == 0)) [
          | inl at_limit ↦ (path, rw at_limit refl)
          | inr more ↦
              let (r, found) = h (linked s e target) in
              (r, ap (λ b. if b then some path else again (linked s e target)) more ∙ found)
        ]

    hops-returns :
        (n : ℕ) (path : List ℕ)
        → (r : List ℕ) × (hops mounts firmlinks lexically_normal read n path ≡ some r)
    unfolding hops after_scan
    hops-returns zero path = (path, refl)
    hops-returns (suc n) path =
        after_scan-returns (λ s e target. linked_path firmlinks lexically_normal s e target path)
          (λ p. hops mounts firmlinks lexically_normal read n p) n path
          (scan mounts read (length path + 1) 1 path)
          (scan-enough (length path + 1) 1 path (omega arith) (omega arith)) (λ p. hops-returns n p)

    -- The function returns, whatever the links lead to.
    pub resolve-returns :
        (path : List ℕ)
        → (r : List ℕ) × (resolve_local_symlinks mounts firmlinks lexically_normal read path
            ≡ some r)
    unfolding resolve_local_symlinks
    resolve-returns path = hops-returns 40 path
