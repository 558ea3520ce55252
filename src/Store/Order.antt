-- ===== src/Store/Order.antt =====
-- The order in which `thread_bytes.iter()` of src/store/src/lib.rs visits a map. The standard
-- library leaves it open: the store takes it as an argument.
use codex_warden.Prelude.{
  ℕ, ◌≡◌, refl, subst, Bool, true, false, String, none, some, [], ◌∷◌, Map, lookup, remove,
  string_eq, lookup-remove, find?, ◌==◌, eq_iff, arith, Bool-cases, inl, inr,
}

-- Iteration yields the pairs of the map and no others.
pub record IsOrder (order : Map String ℕ → Map String ℕ) : Type 0 where
  pub visits_only :
      (m : Map String ℕ) (p : String × ℕ → Bool) (t : String) (b : ℕ)
      → find? p (order m) ≡ some (t, b)
      → (lookup t m ≡ some b) × (p (t, b) ≡ true)
  pub visits_all :
      (m : Map String ℕ) (p : String × ℕ → Bool) (t : String) (b : ℕ)
      → find? p (order m) ≡ none
      → lookup t m ≡ some b
      → p (t, b) ≡ false

-- One such order: that of the list, each key once.
unfoldable pub entries : Map String ℕ → Map String ℕ
entries [] = []
entries ((k, v) ∷ m) = (k, v) ∷ remove k (entries m)

lookup-entries : (t : String) (m : Map String ℕ) → lookup t (entries m) ≡ lookup t m
unfolding entries lookup
lookup-entries t [] = refl
lookup-entries t ((k, v) ∷ m) = ground (arith, lookup-remove k t (entries m), lookup-entries t m)

-- Keys that stand once.
abbrev Fresh : String → Map String ℕ → Type 0
Fresh k m = lookup k m ≡ none

abbrev Distinct : Map String ℕ → Type 0
Distinct [] = Unit
Distinct ((k, v) ∷ m) = Fresh k m × Distinct m

Distinct-remove : (k : String) (m : Map String ℕ) → Distinct m → Distinct (remove k m)
unfolding remove
Distinct-remove k [] d = tt
Distinct-remove k ((j, v) ∷ m) d = elim (Bool-cases (j == k)) [
  | inl e ↦ rw e (Distinct-remove k m d.1)
  | inr e ↦ rw e (ground (arith, lookup-remove k j m, d.0), Distinct-remove k m d.1)
]

entries-Distinct : (m : Map String ℕ) → Distinct (entries m)
unfolding entries
entries-Distinct [] = tt
entries-Distinct ((k, v) ∷ m) = (
  ground (arith, lookup-remove k k (entries m), eq_iff k k),
  Distinct-remove k (entries m) (entries-Distinct m),
)

found :
    (m : Map String ℕ) (p : String × ℕ → Bool) (t : String) (b : ℕ)
    → Distinct m
    → find? p m ≡ some (t, b)
    → (lookup t m ≡ some b) × (p (t, b) ≡ true)
unfolding lookup
found [] p t b d h = absurd (ground arith)
found ((k, v) ∷ m) p t b d h = elim (Bool-cases (p (k, v))) [
  | inl e ↦
      let same : (k, v) ≡ (t, b) = ground arith in
      subst (λ x. (lookup x.0 ((k, v) ∷ m) ≡ some x.1) × (p x ≡ true)) same
        (ground (arith, eq_iff k k), e)
  | inr e ↦ ground (arith, found m p t b d.1, eq_iff k t)
]

missed :
    (m : Map String ℕ) (p : String × ℕ → Bool) (t : String) (b : ℕ)
    → find? p m ≡ none
    → lookup t m ≡ some b
    → p (t, b) ≡ false
unfolding lookup
missed [] p t b h l = ground arith
missed ((k, v) ∷ m) p t b h l = elim (Bool-cases (p (k, v))) [
  | inl e ↦ absurd (ground arith)
  | inr e ↦ ground (arith, missed m p t b, eq_iff k t)
]

pub entries-IsOrder : IsOrder entries
entries-IsOrder = record {
  visits_only = λ m p t b h.
      let (l, q) = found (entries m) p t b (entries-Distinct m) h in
      (rw (← lookup-entries t m) l, q);
  visits_all = λ m p t b h l. missed (entries m) p t b h (rw lookup-entries l);
}
