-- ===== src/StorageSpeed/Cache.antt =====
-- The cache of volume speeds.
use cpputils.Base.{
  ◌≡◌, sym, List, [], ◌∷◌, ◌++◌, Option, none, some, Bool, true, arith, Option-cases, inl, inr,
}
use mathlib.Core.Path.{subst}
use cpputils.StorageSpeed.{Speed, cached, storage_speed_for_key}

module _ {K : Type 0} (same : K → K → Bool) where
  cached-append :
      (key : K) (speed : Speed) (c : List (K × Speed))
      → same key key ≡ true
      → cached same key c ≡ none
      → cached same key (c ++ (key, speed) ∷ []) ≡ some speed
  cached-append key speed [] e h = ground arith
  cached-append key speed ((k, s) ∷ c) e h = ground (arith, cached-append key speed c e)

  cached-append-some :
      (key k' : K) (speed s' : Speed) (c : List (K × Speed))
      → cached same key c ≡ some speed
      → cached same key (c ++ (k', s') ∷ []) ≡ some speed
  cached-append-some key k' speed s' [] h = ground arith
  cached-append-some key k' speed s' ((k, s) ∷ c) h =
      ground (arith, cached-append-some key k' speed s' c)

  after :
      (query' query'' : K → Speed) (key : K) (speed : Speed) (other : Option K)
      (c : List (K × Speed))
      → cached same key c ≡ some speed
      → (storage_speed_for_key same query''
          (some key)
          (storage_speed_for_key same query' other c).1).0
        ≡ speed
  unfolding storage_speed_for_key
  after query' query'' key speed none c h = ground arith
  after query' query'' key speed (some k) c h = elim (Option-cases (cached same k c)) [
    | inl new ↦ ground (arith, cached-append-some key k speed (query' k) c h)
    | inr (s, known) ↦ ground arith
  ]

  abbrev Stable : (K → Speed) → (K → Speed) → K → Option K → Speed × List (K × Speed) → Type 0
  Stable query' query'' key other r =
      (storage_speed_for_key same query'' (some key)
        (storage_speed_for_key same query' other r.1).1).0
      ≡ r.0

  -- Once a volume's speed has been returned, every later call for the same key returns the same
  -- speed, whatever the query would say by then and whatever other volume was asked for in between.
  pub storage_speed-is_stable :
      (query query' query'' : K → Speed) (key : K) (other : Option K) (c : List (K × Speed))
      → same key key ≡ true
      → let (speed, c₁) = storage_speed_for_key same query (some key) c in
        let c₂ = (storage_speed_for_key same query' other c₁).1 in
        (storage_speed_for_key same query'' (some key) c₂).0 ≡ speed
  unfolding storage_speed_for_key
  storage_speed-is_stable query query' query'' key other c e =
      elim (Option-cases (cached same key c)) [
        | inl new ↦
            let first : storage_speed_for_key same query (some key) c
                ≡ (query key, c ++ (key, query key) ∷ []) =
              ground arith in
            subst (Stable query' query'' key other) (sym first) (
              after query' query'' key (query key) other (c ++ (key, query key) ∷ [])
                (cached-append key (query key) c e new))
        | inr (speed, known) ↦
            let first : storage_speed_for_key same query (some key) c ≡ (speed, c) = ground arith in
            subst (Stable query' query'' key other) (sym first)
              (after query' query'' key speed other c known)
      ]
