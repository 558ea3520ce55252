-- ===== src/Prelude/Maps.antt =====
-- Rust's `HashMap` and `HashSet` as association lists with one entry for a key. Code whose result
-- depends on the order of iteration takes that order as an argument.
use mathlib.Core.Path.{◌≡◌, refl}
use mathlib.Core.Bool.{Bool, false, ◌||◌}
use mathlib.Core.Logic.{inl, inr}
use mathlib.Core.List.{List, [], ◌∷◌}
use mathlib.Core.Option.{Option, none, some}
use native.Mathlib.Omega.{arith}
use codex_warden.Prelude.Tests.{if◌then◌else◌, Eq, ◌==◌, Bool-cases}

abbrev pub Map {ℓ} : Type ℓ → Type ℓ → Type ℓ
Map K V = List (K × V)

module _ {ℓ} {K V : Type ℓ} ⦃e : Eq K⦄ where
  -- `get`
  unfoldable pub lookup : K → Map K V → Option V
  lookup k [] = none
  lookup k ((key, value) ∷ rest) = if key == k then some value else lookup k rest

  -- `insert`: replaces the value of a key that is there.
  unfoldable pub insert : K → V → Map K V → Map K V
  insert k v [] = (k, v) ∷ []
  insert k v ((key, old) ∷ rest) = if key == k then (k, v) ∷ rest else (key, old) ∷ insert k v rest

  -- `remove`
  unfoldable pub remove : K → Map K V → Map K V
  remove k [] = []
  remove k ((j, v) ∷ m) = let rest = remove k m in if j == k then rest else (j, v) ∷ rest

  pub lookup-insert :
      (new other : K) (value : V) (map : Map K V)
      → lookup other (insert new value map)
        ≡ (if new == other then some value else lookup other map)
  unfolding insert lookup
  lookup-insert new other value [] = refl
  lookup-insert new other value ((key, old) ∷ rest) = ground (
    arith,
    e.beq_iff new other,
    e.beq_iff key new,
    e.beq_iff key other,
    lookup-insert new other value rest,
  )

  pub lookup-remove :
      (k j : K) (m : Map K V) → lookup j (remove k m) ≡ (if k == j then none else lookup j m)
  unfolding lookup remove
  lookup-remove k j [] = ground arith
  lookup-remove k j ((i, w) ∷ m) =
      ground (arith, e.beq_iff k j, e.beq_iff i k, e.beq_iff i j, lookup-remove k j m)

-- `retain`: an entry that fails leaves with its key.
module _ {ℓ} {K V : Type ℓ} ⦃e : Eq K⦄ where
  unfoldable pub retain : (K → V → Bool) → Map K V → Map K V
  retain p [] = []
  retain p ((k, v) ∷ m) = let rest = retain p m in if p k v then (k, v) ∷ rest else remove k rest

  abbrev keep_if : (K → V → Bool) → K → Option V → Option V
  keep_if p k none = none
  keep_if p k (some v) = if p k v then some v else none

  pub lookup-retain :
      (p : K → V → Bool) (j : K) (m : Map K V) → lookup j (retain p m) ≡ keep_if p j (lookup j m)
  unfolding lookup retain
  lookup-retain p j [] = refl
  lookup-retain p j ((k, v) ∷ m) =
      ground (arith, e.beq_iff k j, lookup-remove k j (retain p m), lookup-retain p j m)

-- `HashSet`
abbrev pub Set {ℓ} : Type ℓ → Type ℓ
Set K = List K

module _ {ℓ} {K : Type ℓ} ⦃e : Eq K⦄ where
  unfoldable pub contains : K → Set K → Bool
  contains k [] = false
  contains k (j ∷ s) = j == k || contains k s

  -- `insert`
  unfoldable pub set_insert : K → Set K → Set K
  unfolding contains
  set_insert k s = if contains k s then s else k ∷ s

  unfoldable pub set_remove : K → Set K → Set K
  set_remove k [] = []
  set_remove k (j ∷ s) = let rest = set_remove k s in if j == k then rest else j ∷ rest

  pub contains-set_insert :
      (k j : K) (s : Set K) → contains j (set_insert k s) ≡ (k == j || contains j s)
  unfolding contains set_insert
  contains-set_insert k j s = elim (Bool-cases (contains k s)) [
    | inl old ↦ rw old (ground (arith, e.beq_iff k j))
    | inr new ↦ rw new
  ]

  pub contains-set_remove :
      (k j : K) (s : Set K) → contains j (set_remove k s) ≡ (if k == j then false else contains j s)
  unfolding contains set_remove
  contains-set_remove k j [] = ground arith
  contains-set_remove k j (i ∷ s) =
      ground (arith, e.beq_iff k j, e.beq_iff i k, e.beq_iff i j, contains-set_remove k j s)
