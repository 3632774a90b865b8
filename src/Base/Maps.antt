-- ===== src/Base/Maps.antt =====
-- `std::map` as an association list in the order of its keys.
use mathlib.Core.Path.{◌≡◌, sym, subst}
use mathlib.Core.Logic.{inl, inr}
use mathlib.Core.Bool.{Bool, true, false}
use mathlib.Core.List.{List, [], ◌∷◌, map}
use mathlib.Core.Option.{Option, none, some}
use native.Mathlib.Omega.{arith}
use pulse_log.Base.Tests.{if◌then◌else◌, Bool-cases}
use pulse_log.Base.Lists.{All, keep}
use pulse_log.Base.Keys.{Key, ◌==◌}

abbrev pub Map {ℓ κ} : Type ℓ → Type κ → Type (ℓ ⊔ κ)
Map K V = List (K × V)

abbrev pub keys {ℓ κ} : {K : Type ℓ} {V : Type κ} → Map K V → List K
keys = map (λ e. e.0)

module _ {ℓ κ} {K : Type ℓ} {V : Type κ} ⦃key : Key K⦄ where
  unfoldable pub find : K → Map K V → Option V
  find k [] = none
  find k ((j, v) ∷ m) = if j == k then some v else find k m

  unfoldable pub erase : K → Map K V → Map K V
  erase k [] = []
  erase k ((j, v) ∷ m) = let rest = erase k m in if j == k then rest else (j, v) ∷ rest

  abbrev pub contains_key : K → Map K V → Bool
  contains_key k m = elim (find k m) [ none ↦ false | some v ↦ true ]

  unfoldable pub replace : K → V → Map K V → Map K V
  replace k v [] = []
  replace k v ((j, w) ∷ m) =
      let rest = replace k v m in if j == k then (j, v) ∷ m else (j, w) ∷ rest

  -- A new key goes before the first greater one.
  unfoldable pub insert : K → V → Map K V → Map K V
  insert k v [] = (k, v) ∷ []
  insert k v ((j, w) ∷ m) =
      let rest = insert k v m in if key.less k j then (k, v) ∷ (j, w) ∷ m else (j, w) ∷ rest

  -- m[k] = v
  unfoldable pub assign : K → V → Map K V → Map K V
  assign k v m = if contains_key k m then replace k v m else insert k v m

  -- `emplace`: nothing happens if the key is there.
  unfoldable pub emplace : K → V → Map K V → Map K V
  emplace k v m = if contains_key k m then m else assign k v m

  find-replace :
      (k j : K) (v : V) (m : Map K V)
      → contains_key k m ≡ true
      → find j (replace k v m) ≡ (if k == j then some v else find j m)
  unfolding find replace
  find-replace k j v [] h = cc
  find-replace k j v ((i, w) ∷ m) h =
      ground (arith, find-replace k j v m, key.beq_iff i k, key.beq_iff i j, key.beq_iff k j)

  find-insert :
      (k j : K) (v : V) (m : Map K V)
      → contains_key k m ≡ false
      → find j (insert k v m) ≡ (if k == j then some v else find j m)
  unfolding find insert
  find-insert k j v [] h = ground arith
  find-insert k j v ((i, w) ∷ m) h =
      ground (arith, find-insert k j v m, key.beq_iff i k, key.beq_iff i j, key.beq_iff k j)

  pub find-assign :
      (k j : K) (v : V) (m : Map K V)
      → find j (assign k v m) ≡ (if k == j then some v else find j m)
  unfolding assign
  find-assign k j v m = elim (Bool-cases (contains_key k m)) [
    | inl e ↦ simp e (find-replace k j v m e)
    | inr e ↦ simp e (find-insert k j v m e)
  ]

  pub find-erase :
      (k j : K) (m : Map K V) → find j (erase k m) ≡ (if k == j then none else find j m)
  unfolding find erase
  find-erase k j [] = ground arith
  find-erase k j ((i, w) ∷ m) =
      ground (arith, find-erase k j m, key.beq_iff i k, key.beq_iff i j, key.beq_iff k j)

-- A property of all entries.
module _ {ℓ κ λ'} {K : Type ℓ} {V : Type κ} ⦃key : Key K⦄ (P : K × V → Type λ') where
  -- An entry that is replaced keeps its key, and a new one has its own.
  All-replace : (k : K) (v : V) (m : Map K V) → P (k, v) → All P m → All P (replace k v m)
  unfolding replace
  All-replace k v [] p h = tt
  All-replace k v ((j, w) ∷ m) p h = elim (Bool-cases (j == k)) [
    | inl e ↦ rw e (subst (λ (i : K). P (i, v)) (sym ((key.beq_iff j k).0 e)) p, h.1)
    | inr e ↦ rw e (h.0, All-replace k v m p h.1)
  ]

  All-insert : (k : K) (v : V) (m : Map K V) → P (k, v) → All P m → All P (insert k v m)
  unfolding insert
  All-insert k v [] p h = (p, tt)
  All-insert k v ((j, w) ∷ m) p h = elim (Bool-cases (key.less k j)) [
    | inl l ↦ rw l (p, h)
    | inr l ↦ rw l (h.0, All-insert k v m p h.1)
  ]

  pub All-assign : (k : K) (v : V) (m : Map K V) → P (k, v) → All P m → All P (assign k v m)
  unfolding assign
  All-assign k v m p h = elim (Bool-cases (contains_key k m)) [
    | inl e ↦ rw e (All-replace k v m p h)
    | inr e ↦ rw e (All-insert k v m p h)
  ]

  pub All-erase : (k : K) (m : Map K V) → All P m → All P (erase k m)
  unfolding erase
  All-erase k [] h = tt
  All-erase k ((j, w) ∷ m) h = elim (Bool-cases (j == k)) [
    | inl e ↦ rw e (All-erase k m h.1)
    | inr e ↦ rw e (h.0, All-erase k m h.1)
  ]

  pub All-emplace : (k : K) (v : V) (m : Map K V) → P (k, v) → All P m → All P (emplace k v m)
  unfolding emplace
  All-emplace k v m p h = elim (Bool-cases (contains_key k m)) [
    | inl e ↦ rw e h
    | inr e ↦ rw e (All-assign k v m p h)
  ]

  -- What holds of all entries holds of the entry that is found.
  pub All-find : (k : K) {v : V} (m : Map K V) → All P m → find k m ≡ some v → P (k, v)
  unfolding find
  All-find k [] h e = cc
  All-find k {v} ((j, w) ∷ m) h e = elim (Bool-cases (j == k)) [
    | inl hit ↦
        let same : w ≡ v = ground arith in
        let at : j ≡ k = (key.beq_iff j k).0 hit in subst P (cc) h.0
    | inr miss ↦ All-find k m h.1 (ground arith)
  ]

abbrev pub or_else {ℓ} : {A : Type ℓ} → Option A → Option A → Option A
or_else (some a) o = some a
or_else none o = o

module _ {ℓ κ} {K : Type ℓ} {V : Type κ} ⦃key : Key K⦄ where
  pub find-emplace :
      (k j : K) (v : V) (m : Map K V)
      → find j (emplace k v m) ≡ or_else (find j m) (if k == j then some v else none)
  unfolding emplace
  find-emplace k j v m = ground (arith, find-assign k j v m, key.beq_iff k j, same_key)
    where
      same_key : (k == j) ≡ true → find j m ≡ find k m
      same_key h = rw (← (key.beq_iff k j).0 h)

  pub find-keep :
      (p : K → Bool) (k : K) (m : Map K V)
      → find k (keep (λ e. p e.0) m) ≡ (if p k then find k m else none)
  unfolding find keep
  find-keep p k [] = ground arith
  find-keep p k ((j, w) ∷ m) = ground (arith, find-keep p k m, key.beq_iff j k)
