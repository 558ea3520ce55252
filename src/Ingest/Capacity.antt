-- ===== src/Ingest/Capacity.antt =====
-- The count of retained subscriptions under writes to one thread's state (src/ingest/src/lib.rs).
use codex_warden.Prelude.{
  ℕ, ◌+◌, ◌≡◌, ◌≢◌, refl, ◌∙◌, inl, inr, String, Option, none, some, is_some_and, [], ◌∷◌, Map,
  lookup, insert, lookup-insert, string_eq, eq_iff, if◌then◌else◌, arith, Bool-cases, and_then,
}
use codex_warden.Ingest.State.{SubscriptionState, is_managed}
use codex_warden.Ingest.Discover.{retained}

-- What a state counts for.
abbrev pub weight : Option SubscriptionState → ℕ
weight o = if is_some_and o is_managed then 1 else 0

retained-insert :
    (id : String) (s : SubscriptionState) (m : Map String SubscriptionState)
    → retained (insert id s m) + weight (lookup id m) ≡ retained m + weight (some s)
unfolding retained insert lookup
retained-insert id s [] = ground arith
retained-insert id s ((j, t) ∷ m) = elim (Bool-cases (string_eq.beq j id)) [
  | inl e ↦ ground (arith, e)
  | inr e ↦ ground (arith, e, retained-insert id s m)
]

-- Only one thread's state differs, and the count follows that state.
pub record IsTouched (id : String) (old new : Map String SubscriptionState) : Type 0 where
  pub others : (j : String) → id ≢ j → lookup j new ≡ lookup j old
  pub counted : retained new + weight (lookup id old) ≡ retained old + weight (lookup id new)

pub same-IsTouched : (id : String) (m : Map String SubscriptionState) → IsTouched id m m
same-IsTouched id m = record { others = λ j h. refl; counted = refl }

pub insert-IsTouched :
    (id : String) (s : SubscriptionState) (old new : Map String SubscriptionState)
    → IsTouched id old new
    → IsTouched id old (insert id s new)
insert-IsTouched id s old new t = record {
  others = λ j h. ground (arith, eq_iff id j, lookup-insert id j s new, t.others j h);
  counted =
      ground (arith, eq_iff id id, lookup-insert id id s new, retained-insert id s new, t.counted);
}

pub trans-IsTouched :
    (id : String) (a b c : Map String SubscriptionState)
    → IsTouched id a b
    → IsTouched id b c
    → IsTouched id a c
trans-IsTouched id a b c t u = record {
  others = λ j h. u.others j h ∙ t.others j h;
  counted = omega (arith, t.counted, u.counted);
}

-- What holds of the value, if there is one.
abbrev pub Each : {A : Type 0} → (A → Type 0) → Option A → Type 0
Each P none = Unit
Each P (some a) = P a

pub Each-and_then :
    {A B : Type 0} (P : A → Type 0) (Q : B → Type 0) (o : Option A) (f : A → Option B)
    → Each P o
    → ((a : A) → P a → Each Q (f a))
    → Each Q (and_then o f)
Each-and_then P Q none f h g = tt
Each-and_then P Q (some a) f h g = g a h

pub anything : {A : Type 0} (o : Option A) → Each (λ a. Unit) o
anything none = tt
anything (some a) = tt

pub Each-map :
    {A : Type 0} (P Q : A → Type 0) (o : Option A)
    → Each P o
    → ((a : A) → P a → Each Q (some a))
    → Each Q o
Each-map P Q none h g = tt
Each-map P Q (some a) h g = g a h
