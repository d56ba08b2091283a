-- ===== src/StorageSpeed/Mounts.antt =====
-- Which mount, and which firmlink, is chosen.
use cpputils.Base.{
  ℕ, ◌≤◌, ◌<◌, ◌≡◌, refl, sym, List, [], ◌∷◌, ◌++◌, Option, none, some, Bool, true, false, arith,
  leb, length, All, ap, Bool-cases, inl, inr, ◌⊎◌, ◌&&◌, ◌∙◌, if◌then◌else◌,
}
use mathlib.Core.Path.{subst}
use cpputils.StorageSpeed.{Mount, best, mount_for_path, is_within_folder}

module _ {A : Type 0} (size : A → ℕ) (fits : A → Bool) where
  abbrev better : Option A → A → Bool
  better match x = elim match [ none ↦ true | some m ↦ leb (size m) (size x) ]

  -- `m` is in the list and fits; what fits before it is no longer, what fits after it is shorter.
  pub record IsLastLongest (xs : List A) (m : A) : Type 0 where
    pub before : List A
    pub after : List A
    pub split : xs ≡ before ++ m ∷ after
    pub fitting : fits m ≡ true
    pub no_longer : All (λ x. fits x ≡ true → size x ≤ size m) before
    pub shorter : All (λ x. fits x ≡ true → size x < size m) after

  -- What the scan that starts from a match makes of a list.
  Chosen : Option A → List A → Option A → Type 0
  Chosen match xs none = (match ≡ none) × All (λ x. fits x ≡ false) xs
  Chosen match xs (some m) =
      ((match ≡ some m) × All (λ x. fits x ≡ true → size x < size m) xs)
      ⊎ (IsLastLongest xs m × ((a : A) → match ≡ some a → size a ≤ size m))

  passed :
      (x : A) (xs : List A) (match r : Option A)
      → (fits x && better match x) ≡ false
      → Chosen match xs r
      → Chosen match (x ∷ xs) r
  unfolding Chosen
  passed x xs match none h (e, all) = (e, (ground arith, all))
  passed x xs match (some m) h (inl (e, all)) = inl (e, ((λ f. ground arith), all))
  passed x xs none (some m) h (inr (v, le)) = inr (
    record {
      before = x ∷ v.before;
      after = v.after;
      split = ap (◌∷◌ x) v.split;
      fitting = v.fitting;
      no_longer = ((λ f. absurd (ground arith)), v.no_longer);
      shorter = v.shorter;
    },
    le,
  )
  passed x xs (some a) (some m) h (inr (v, le)) = inr (
    record {
      before = x ∷ v.before;
      after = v.after;
      split = ap (◌∷◌ x) v.split;
      fitting = v.fitting;
      no_longer = ((λ f. ground (arith, le a refl)), v.no_longer);
      shorter = v.shorter;
    },
    le,
  )

  taken :
      (x : A) (xs : List A) (match r : Option A)
      → (fits x && better match x) ≡ true
      → Chosen (some x) xs r
      → Chosen match (x ∷ xs) r
  unfolding Chosen
  taken x xs match none h (e, all) = absurd (ground arith)
  taken x xs match (some m) h (inl (e, all)) =
      let same : x ≡ m = ground arith in
      inr (
        record {
          before = [];
          after = xs;
          split = ap (λ y. y ∷ xs) same;
          fitting = ground arith;
          no_longer = tt;
          shorter = all;
        },
        λ a e'. ground arith,
      )
  taken x xs match (some m) h (inr (v, le)) = inr (
    record {
      before = x ∷ v.before;
      after = v.after;
      split = ap (◌∷◌ x) v.split;
      fitting = v.fitting;
      no_longer = ((λ f. le x refl), v.no_longer);
      shorter = v.shorter;
    },
    λ a e'. ground (arith, le x refl),
  )

  best-Chosen : (xs : List A) (match : Option A) → Chosen match xs (best size fits leb match xs)
  unfolding best Chosen
  best-Chosen [] none = (refl, tt)
  best-Chosen [] (some m) = inl (refl, tt)
  best-Chosen (x ∷ xs) match = elim (Bool-cases (fits x && better match x)) [
    | inl yes_better ↦
        let further =
          taken x xs match (best size fits leb (some x) xs) yes_better (best-Chosen xs (some x)) in
        subst (λ b. Chosen match (x ∷ xs) (best size fits leb (if b then some x else match) xs))
          (sym yes_better) further
    | inr not_better ↦
        let further =
          passed x xs match (best size fits leb match xs) not_better (best-Chosen xs match) in
        subst (λ b. Chosen match (x ∷ xs) (best size fits leb (if b then some x else match) xs))
          (sym not_better) further
  ]

  best-after :
      (m : A) (after : List A)
      → All (λ x. fits x ≡ true → size x < size m) after
      → best size fits leb (some m) after ≡ some m
  unfolding best
  best-after m [] all = refl
  best-after m (x ∷ after) (h, all) = elim (Bool-cases (fits x)) [
    | inl fitting ↦
        let shorter : leb (size m) (size x) ≡ false = ground (arith, h fitting) in
        rw (best, fitting, shorter) (best-after m after all)
    | inr misfit ↦ rw (best, misfit) (best-after m after all)
  ]

  best-before :
      (m : A) (before after : List A) (match : Option A)
      → fits m ≡ true
      → All (λ x. fits x ≡ true → size x ≤ size m) before
      → All (λ x. fits x ≡ true → size x < size m) after
      → ((a : A) → match ≡ some a → size a ≤ size m)
      → best size fits leb match (before ++ m ∷ after) ≡ some m
  unfolding best
  best-before m [] after none fit all shorter bound = rw (best, fit) (best-after m after shorter)
  best-before m [] after (some a) fit all shorter bound =
      let longer : leb (size a) (size m) ≡ true = ground (arith, bound a refl) in
      rw (best, fit, longer) (best-after m after shorter)
  best-before m (x ∷ before) after match fit (h, all) shorter bound =
      elim (Bool-cases (fits x && better match x)) [
        | inl now ↦
            let further =
              best-before m before after (some x) fit all shorter (λ a e. ground (arith, h)) in
            subst
              (λ b. best size fits leb (if b then some x else match) (before ++ m ∷ after) ≡ some m)
              (sym now) further
        | inr not_now ↦
            let further = best-before m before after match fit all shorter bound in
            subst
              (λ b. best size fits leb (if b then some x else match) (before ++ m ∷ after) ≡ some m)
              (sym not_now) further
      ]

-- What an answer says of the mounts: which of them is chosen, or that none holds the path.
abbrev pub IsChoice : List Mount → List ℕ → Option Mount → Type 0
IsChoice mounts path none = All (λ (m : Mount). is_within_folder path m.mount_point ≡ false) mounts
IsChoice mounts path (some m) =
    IsLastLongest (λ (m : Mount). length m.mount_point)
      (λ (m : Mount). is_within_folder path m.mount_point) mounts m

Chosen-IsChoice :
    (mounts : List Mount) (path : List ℕ) (r : Option Mount)
    → Chosen
        (λ (m : Mount). length m.mount_point)
        (λ (m : Mount). is_within_folder path m.mount_point)
        none
        mounts
        r
    → IsChoice mounts path r
unfolding Chosen
Chosen-IsChoice mounts path none (_, all) = all
Chosen-IsChoice mounts path (some m) (inl (e, _)) = absurd (ground arith)
Chosen-IsChoice mounts path (some m) (inr (v, _)) = v

-- The mount for a path is, among the mounts that hold the path, the last of those with the longest
-- mount point; where there is none, no mount holds the path.
pub mount_for_path-IsChoice :
    (mounts : List Mount) (path : List ℕ) → IsChoice mounts path (mount_for_path mounts path)
unfolding mount_for_path
mount_for_path-IsChoice mounts path = Chosen-IsChoice mounts path (mount_for_path mounts path) (
    best-Chosen (λ (m : Mount). length m.mount_point)
      (λ (m : Mount). is_within_folder path m.mount_point) mounts none)

-- A path has no other choice.
pub IsChoice-mount_for_path :
    (mounts : List Mount) (path : List ℕ) (m : Mount)
    → IsChoice mounts path (some m)
    → mount_for_path mounts path ≡ some m
unfolding mount_for_path
IsChoice-mount_for_path mounts path m v =
    let size = λ (m : Mount). length m.mount_point in
    let fits = λ (m : Mount). is_within_folder path m.mount_point in
    ap (best size fits leb none) v.split
    ∙ best-before size fits m v.before v.after none v.fitting v.no_longer v.shorter
        (λ a e. absurd (ground arith))
