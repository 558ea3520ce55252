-- ===== src/Transport/Channels.antt =====
-- How often a channel stands among the pending requests.
use codex_warden.Prelude.{
  ℕ, suc, ◌+◌, ◌≡◌, refl, sym, subst, ◌∙◌, ◌⊎◌, inl, inr, none, some, List, [], ◌∷◌, ◌++◌, Map, map,
  lookup, insert, remove, lookup-insert, lookup-remove, arith, Bool-cases, nat_eq, ◌==◌,
  if◌then◌else◌,
}
use codex_warden.Protocol.Frame.{RpcId}
use codex_warden.Transport.State.{Pending, rpc_id_beq, rpc_id_eq, rpc_id_beq_iff}

abbrev pub count : ℕ → List ℕ → ℕ
count c [] = 0
count c (x ∷ xs) = let rest = count c xs in if x == c then suc rest else rest

pub count-append : (c : ℕ) (xs ys : List ℕ) → count c (xs ++ ys) ≡ count c xs + count c ys
count-append c [] ys = omega arith
count-append c (x ∷ xs) ys = ground (arith, count-append c xs ys)

-- the channels of the pending requests
abbrev pub channels : Map RpcId Pending → List ℕ
channels m = map (λ (id, p). p.response) m

-- Each id stands once.
abbrev pub HasUniqueIds : {A : Type 0} → Map RpcId A → Type 0
HasUniqueIds [] = Unit
HasUniqueIds ((id, p) ∷ m) = (lookup id m ≡ none) × HasUniqueIds m

pub count-insert :
    (c : ℕ) (id : RpcId) (p : Pending) (m : Map RpcId Pending)
    → lookup id m ≡ none
    → count c (channels (insert id p m)) ≡ count c (channels m) + count c (p.response ∷ [])
unfolding lookup insert
count-insert c id p [] h = ground arith
count-insert c id p ((j, q) ∷ m) h = elim (Bool-cases (rpc_id_beq j id)) [
  | inl e ↦ absurd (ground (arith, e, h))
  | inr e ↦ ground (arith, e, h, count-insert c id p m)
]

pub insert-HasUniqueIds :
    (id : RpcId) (p : Pending) (m : Map RpcId Pending)
    → HasUniqueIds m
    → HasUniqueIds (insert id p m)
unfolding lookup insert
insert-HasUniqueIds id p [] h = (refl, tt)
insert-HasUniqueIds id p ((j, q) ∷ m) h = elim (Bool-cases (rpc_id_beq j id)) [
  | inl e ↦ rw (insert, e) (subst (λ k. lookup k m ≡ none) ((rpc_id_beq_iff j id).0 e) h.0, h.1)
  | inr e ↦
      rw (insert, e)
        (
          ground (arith, e, h, lookup-insert id j p m, rpc_id_beq_iff id j, rpc_id_beq_iff j id),
          insert-HasUniqueIds id p m h.1,
        )
]

remove_absent : (id : RpcId) (m : Map RpcId Pending) → lookup id m ≡ none → remove id m ≡ m
unfolding lookup remove
remove_absent id [] h = refl
remove_absent id ((j, q) ∷ m) h = elim (Bool-cases (rpc_id_beq j id)) [
  | inl e ↦ absurd (ground (arith, e, h))
  | inr e ↦ ground (arith, e, h, remove_absent id m)
]

pub count-remove :
    (c : ℕ) (id : RpcId) (p : Pending) (m : Map RpcId Pending)
    → HasUniqueIds m
    → lookup id m ≡ some p
    → count c (channels m) ≡ count c (channels (remove id m)) + count c (p.response ∷ [])
unfolding lookup remove
count-remove c id p [] h l = absurd (ground arith)
count-remove c id p ((j, q) ∷ m) h l = elim (Bool-cases (rpc_id_beq j id)) [
  | inl e ↦
      let same : q ≡ p = ground (arith, e, l) in
      let gone =
        remove_absent id m (subst (λ k. lookup k m ≡ none) ((rpc_id_beq_iff j id).0 e) h.0) in
      rw (remove, e, gone, same) (ground arith)
  | inr e ↦
      let deeper : lookup id m ≡ some p = ground (arith, e, l) in
      let ih = count-remove c id p m h.1 deeper in rw (remove, e) (ground (arith, ih))
]

pub remove-HasUniqueIds :
    (id : RpcId) (m : Map RpcId Pending) → HasUniqueIds m → HasUniqueIds (remove id m)
unfolding lookup remove
remove-HasUniqueIds id [] h = tt
remove-HasUniqueIds id ((j, q) ∷ m) h = elim (Bool-cases (rpc_id_beq j id)) [
  | inl e ↦ rw (remove, e) (remove-HasUniqueIds id m h.1)
  | inr e ↦
      rw (remove, e)
        (
          ground (arith, e, h, lookup-remove id j m, rpc_id_beq_iff id j, rpc_id_beq_iff j id),
          remove-HasUniqueIds id m h.1,
        )
]

-- An id has an entry on one side at most.
abbrev pub IsApart : {A B : Type 0} → Map RpcId A → Map RpcId B → Type 0
IsApart m n = (i : RpcId) → (lookup i m ≡ none) ⊎ (lookup i n ≡ none)

pub HasUniqueIds-rest : {A : Type 0} (m n : Map RpcId A) → HasUniqueIds (m ++ n) → HasUniqueIds n
HasUniqueIds-rest [] n h = h
HasUniqueIds-rest ((j, q) ∷ m) n h = HasUniqueIds-rest m n h.1

pub lookup-append_absent :
    {A : Type 0} (i : RpcId) (m n : Map RpcId A)
    → lookup i m ≡ none
    → lookup i (m ++ n) ≡ lookup i n
unfolding lookup
lookup-append_absent i [] n h = refl
lookup-append_absent i ((j, q) ∷ m) n h = elim (Bool-cases (rpc_id_beq j i)) [
  | inl e ↦ absurd (ground (arith, e, h))
  | inr e ↦ rw (lookup, e) (lookup-append_absent i m n (ground (arith, e, h)))
]

pub lookup-append_none :
    {A : Type 0} (i : RpcId) (m n : Map RpcId A) → lookup i (m ++ n) ≡ none → lookup i n ≡ none
unfolding lookup
lookup-append_none i [] n h = h
lookup-append_none i ((j, q) ∷ m) n h = elim (Bool-cases (rpc_id_beq j i)) [
  | inl e ↦ absurd (ground (arith, e, h))
  | inr e ↦ lookup-append_none i m n (ground (arith, e, h))
]

lookup-append_first :
    {A : Type 0} (i : RpcId) (m n : Map RpcId A) → lookup i (m ++ n) ≡ none → lookup i m ≡ none
unfolding lookup
lookup-append_first i [] n h = refl
lookup-append_first i ((j, q) ∷ m) n h = elim (Bool-cases (rpc_id_beq j i)) [
  | inl e ↦ absurd (ground (arith, e, h))
  | inr e ↦ rw (lookup, e) (lookup-append_first i m n (ground (arith, e, h)))
]

append-IsApart : {A : Type 0} (m n : Map RpcId A) → HasUniqueIds (m ++ n) → IsApart m n
unfolding lookup
append-IsApart [] n h i = inl refl
append-IsApart ((j, q) ∷ m) n h i = elim (Bool-cases (rpc_id_beq j i)) [
  | inl e ↦ inr (
      lookup-append_none i m n
        (subst (λ k. lookup k (m ++ n) ≡ none) ((rpc_id_beq_iff j i).0 e) h.0))
  | inr e ↦ elim (append-IsApart m n h.1 i) [ inl l ↦ inl (rw (lookup, e) l) | inr r ↦ inr r ]
]

pub first-IsApart :
    {A B : Type 0} (m n : Map RpcId A) (p : Map RpcId B) → IsApart (m ++ n) p → IsApart m p
first-IsApart m n p apart i = elim (apart i) [
  | inl l ↦ inl (lookup-append_first i m n l)
  | inr r ↦ inr r
]

-- What `m` does not name is still absent from `q`, as it is from `p`.
pub next-IsApart :
    {A B : Type 0} (m n : Map RpcId A) (p q : Map RpcId B)
    → HasUniqueIds (m ++ n)
    → IsApart (m ++ n) p
    → ((i : RpcId) → lookup i m ≡ none → lookup i p ≡ none → lookup i q ≡ none)
    → IsApart n q
next-IsApart m n p q u apart keeps i = elim (append-IsApart m n u i) [
  | inr r ↦ inl r
  | inl l ↦ elim (apart i) [
    | inl a ↦ inl (sym (lookup-append_absent i m n l) ∙ a)
    | inr b ↦ inr (keeps i l b)
  ]
]
