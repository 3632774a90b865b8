-- ===== src/Base/Distinct.antt =====
-- Lists without a repetition, and maps whose keys are one.
use mathlib.Core.Path.{◌≡◌, refl, sym, ap}
use mathlib.Core.Logic.{◌≢◌, inl, inr}
use mathlib.Core.Bool.{Bool, false}
use mathlib.Core.List.{List, [], ◌∷◌}
use mathlib.Core.Option.{some}
use native.Mathlib.Omega.{arith}
use pulse_log.Base.Tests.{Bool-cases}
use pulse_log.Base.Lists.{All, All-map, keep}
use pulse_log.Base.Keys.{Key, ◌==◌, ==_refl}
use pulse_log.Base.Maps.{Map, keys, find, replace, insert, assign, emplace, contains_key}

abbrev pub Distinct {ℓ} : {A : Type ℓ} → List A → Type ℓ
Distinct [] = Unit
Distinct (x ∷ xs) = All (λ y. x ≢ y) xs × Distinct xs

abbrev pub HasDistinctKeys {ℓ κ} : {K : Type ℓ} {V : Type κ} → Map K V → Type ℓ
HasDistinctKeys m = Distinct (keys m)

module _ {ℓ κ λ'} {K : Type ℓ} {V : Type κ} (P : K → Type λ') (p : K × V → Bool) where
  All-keys-keep : (m : Map K V) → All P (keys m) → All P (keys (keep p m))
  unfolding keep
  All-keys-keep [] h = tt
  All-keys-keep (e ∷ m) h = elim (Bool-cases (p e)) [
    | inl k ↦ rw k (h.0, All-keys-keep m h.1)
    | inr k ↦ rw k (All-keys-keep m h.1)
  ]

pub keep-HasDistinctKeys {ℓ κ} :
    {K : Type ℓ} {V : Type κ} (p : K × V → Bool) (m : Map K V)
    → HasDistinctKeys m
    → HasDistinctKeys (keep p m)
unfolding keep
keep-HasDistinctKeys p [] h = tt
keep-HasDistinctKeys p ((j, w) ∷ m) h = elim (Bool-cases (p (j, w))) [
  | inl k ↦ rw k (All-keys-keep (λ y. j ≢ y) p m h.0, keep-HasDistinctKeys p m h.1)
  | inr k ↦ rw k (keep-HasDistinctKeys p m h.1)
]

module _ {ℓ κ} {K : Type ℓ} {V : Type κ} ⦃key : Key K⦄ where
  pub keys-replace : (k : K) (v : V) (m : Map K V) → keys (replace k v m) ≡ keys m
  unfolding replace
  keys-replace k v [] = refl
  keys-replace k v ((j, w) ∷ m) = elim (Bool-cases (j == k)) [
    | inl e ↦ rw e
    | inr e ↦ rw e (ap (λ (l : List K). j ∷ l) (keys-replace k v m))
  ]

  absent-All : (k : K) (m : Map K V) → contains_key k m ≡ false → All (λ y. k ≢ y) (keys m)
  unfolding find
  absent-All k [] h = tt
  absent-All k ((j, w) ∷ m) h = elim (Bool-cases (j == k)) [
    | inl e ↦ cc
    | inr e ↦ ((λ same. cc ((key.beq_iff j k).1 (sym same))), absent-All k m (ground arith))
  ]

  insert-All :
      (x k : K) (v : V) (m : Map K V)
      → x ≢ k
      → All (λ y. x ≢ y) (keys m)
      → All (λ y. x ≢ y) (keys (insert k v m))
  unfolding insert
  insert-All x k v [] n h = (n, tt)
  insert-All x k v ((j, w) ∷ m) n h = elim (Bool-cases (key.less k j)) [
    | inl l ↦ rw l (n, h)
    | inr l ↦ rw l (h.0, insert-All x k v m n h.1)
  ]

  insert-HasDistinctKeys :
      (k : K) (v : V) (m : Map K V)
      → All (λ y. k ≢ y) (keys m)
      → HasDistinctKeys m
      → HasDistinctKeys (insert k v m)
  unfolding insert
  insert-HasDistinctKeys k v [] a h = (tt, tt)
  insert-HasDistinctKeys k v ((j, w) ∷ m) a h = elim (Bool-cases (key.less k j)) [
    | inl l ↦ rw l (a, h)
    | inr l ↦ rw l (insert-All j k v m (λ e. a.0 (sym e)) h.0, insert-HasDistinctKeys k v m a.1 h.1)
  ]

  pub assign-HasDistinctKeys :
      (k : K) (v : V) (m : Map K V) → HasDistinctKeys m → HasDistinctKeys (assign k v m)
  unfolding assign
  assign-HasDistinctKeys k v m h = elim (Bool-cases (contains_key k m)) [
    | inl e ↦ rw (e, keys-replace k v m) h
    | inr e ↦ rw e (insert-HasDistinctKeys k v m (absent-All k m e) h)
  ]

  pub emplace-HasDistinctKeys :
      (k : K) (v : V) (m : Map K V) → HasDistinctKeys m → HasDistinctKeys (emplace k v m)
  unfolding emplace
  emplace-HasDistinctKeys k v m h = elim (Bool-cases (contains_key k m)) [
    | inl e ↦ rw e h
    | inr e ↦ rw e (assign-HasDistinctKeys k v m h)
  ]

  -- Every entry is found at its key.
  pub find_entry : (m : Map K V) → HasDistinctKeys m → All (λ e. find e.0 m ≡ some e.1) m
  unfolding find
  find_entry [] h = tt
  find_entry ((j, w) ∷ m) h = (rw (==_refl j), go m h.0 (find_entry m h.1))
    where
      go :
          (l : Map K V)
          → All (λ y. j ≢ y) (keys l)
          → All (λ e. find e.0 m ≡ some e.1) l
          → All (λ e. find e.0 ((j, w) ∷ m) ≡ some e.1) l
      go [] a f = tt
      go ((i, u) ∷ l) a f = (ground (arith, f.0, a.0, key.beq_iff j i), go l a.1 f.1)

-- What holds at every key that is found holds of all entries.
pub All-of_find {ℓ κ λ'} :
    {K : Type ℓ} {V : Type κ} ⦃key : Key K⦄ (P : K → Type λ') (m : Map K V)
    → HasDistinctKeys m
    → ((k : K) (v : V) → find k m ≡ some v → P k)
    → All (λ e. P e.0) m
All-of_find P m d h =
    All-map (λ e. find e.0 m ≡ some e.1) (λ e found. h e.0 e.1 found) m (find_entry m d)
