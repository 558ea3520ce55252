-- ===== src/Core/Roots.antt =====
-- What is remembered of the skill roots, and what is replayed (src/core/src/skills.rs).
use codex_warden.Prelude.{
  ◌≡◌, refl, sym, ap, ◌∙◌, ◌⊎◌, ℕ, suc, ◌+◌, ◌≤◌, ◌<◌, length, inl, inr, String, Option, none, some,
  List, [], ◌∷◌, ◌++◌, Result, ok, err, arith, Bool-cases,
}
use codex_warden.Protocol.Json.{Json}
use codex_warden.Control.Client.{Answer, Client, request}
use codex_warden.Core.Skills.{
  SkillManagementError, invalid_path, SkillController, new_skills, is_bad_root, encode_extra_roots,
  roots_answered, send_extra_roots, remember, set_extra_roots, reapplied, reapply_extra_roots,
}
use codex_warden.Core.Calls.{
  SkillCall, set_roots, reapply, Outcome, remembered, last_set, as_outcome, skill_call, then_calls,
  skill_calls, roots_request, sent_by, sent_in,
}

-- Valid roots are sent as they are.
abbrev AreValid : (V : Type 0) → Option (List String) → Type 0
AreValid V none = Unit
AreValid V (some roots) = encode_extra_roots {V = V} roots ≡ ok roots

append_nil : {A : Type 0} (xs : List A) → xs ≡ xs ++ []
append_nil [] = refl
append_nil (x ∷ xs) = ap (λ l. x ∷ l) (append_nil xs)

append_assoc : {A : Type 0} (xs ys zs : List A) → (xs ++ ys) ++ zs ≡ xs ++ (ys ++ zs)
append_assoc [] ys zs = refl
append_assoc (x ∷ xs) ys zs = ap (λ l. x ∷ l) (append_assoc xs ys zs)

encode_extra_roots-cases :
    {V : Type 0} (roots : List String)
    → (encode_extra_roots {V = V} roots ≡ ok roots)
      ⊎ ((e : SkillManagementError V) × (encode_extra_roots roots ≡ err e))
unfolding encode_extra_roots
encode_extra_roots-cases [] = inl refl
encode_extra_roots-cases {V = V} (path ∷ rest) = elim (Bool-cases (is_bad_root path)) [
  | inl bad ↦ inr (
    invalid_path "skill extra root" path "absolute and lexically normalized",
    rw (bad, encode_extra_roots) refl,
  )
  | inr good ↦ elim (encode_extra_roots-cases {V = V} rest) [
    | inl h ↦ inl (rw (good, h, encode_extra_roots) refl)
    | inr (e, h) ↦ inr (e, rw (good, h, encode_extra_roots) refl)
  ]
]

module _ {V : Type 0} (J : Json V) (from_empty : V → Result (Unit {0}) String) where
  -- One call, from remembered roots that are valid.
  record IsReplayed (c : SkillController V) (call : SkillCall) (outcome : Outcome V)
      (c' : SkillController V) : Type 0 where
    kept : c'.extra_roots ≡ remembered c.extra_roots call outcome
    wire : c'.client.sent ≡ c.client.sent ++ sent_by J from_empty c.extra_roots call
    valid : AreValid V c'.extra_roots
    used : length c.client.answers ≤ length c'.client.answers + 1

  abbrev Replays : SkillController V → SkillCall → Option (Outcome V × SkillController V) → Type 0
  Replays c call none = length c.client.answers ≡ 0
  Replays c call (some (outcome, c')) = IsReplayed c call outcome c'

  -- the controller of these parts
  abbrev controller_of :
      List (Answer V) → List (String × V) → Option (List String) → SkillController V
  controller_of answers sent old = record {
    client = record { answers = answers; sent = sent };
    extra_roots = old;
  }

  module _ (sent : List (String × V)) (old : Option (List String)) (v : AreValid V old) where
    sends-Replays :
        (roots : List String)
        → encode_extra_roots {V = V} roots ≡ ok roots
        → (answers : List (Answer V))
        → Replays (controller_of answers sent old) (set_roots roots) (
            as_outcome (
              send_extra_roots J from_empty roots
                (remember J from_empty roots old)
                (record { answers = answers; sent = sent })))
    unfolding request
    sends-Replays roots h [] = refl
    sends-Replays roots h (answer ∷ rest) = go (roots_answered J from_empty answer)
      where
        go :
            (r : Result (Unit {0}) (SkillManagementError V))
            → Replays (controller_of (answer ∷ rest) sent old) (set_roots roots) (
                as_outcome (
                  some (
                    remember J from_empty roots old r (record {
                      answers = rest;
                      sent = sent ++ roots_request J from_empty roots ∷ [];
                    }))))
        go (ok u) = record { kept = refl; wire = rw h refl; valid = h; used = omega arith }
        go (err x) = record { kept = refl; wire = rw h refl; valid = v; used = omega arith }

    set_roots-Replays :
        (roots : List String) (answers : List (Answer V))
        → Replays
            (controller_of answers sent old)
            (set_roots roots)
            (skill_call J from_empty (set_roots roots) (controller_of answers sent old))
    unfolding skill_call set_extra_roots
    set_roots-Replays roots answers = elim (encode_extra_roots-cases {V = V} roots) [
      | inl h ↦ rw (skill_call, h) (sends-Replays roots h answers)
      | inr (e, h) ↦
          rw (skill_call, h)
            (record { kept = refl; wire = rw h (append_nil sent); valid = v; used = omega arith })
    ]

  reapply-Replays :
      (sent : List (String × V)) (old : Option (List String)) (answers : List (Answer V))
      → AreValid V old
      → Replays
          (controller_of answers sent old)
          reapply
          (skill_call J from_empty reapply (controller_of answers sent old))
  unfolding skill_call reapply_extra_roots request
  reapply-Replays sent none answers v = record {
    kept = refl;
    wire = append_nil sent;
    valid = tt;
    used = omega arith;
  }
  reapply-Replays sent (some roots) [] v = rw (skill_call, v) refl
  reapply-Replays sent (some roots) (answer ∷ rest) v =
      rw (skill_call, v) (go (roots_answered J from_empty answer))
    where
      go :
          (r : Result (Unit {0}) (SkillManagementError V))
          → Replays (controller_of (answer ∷ rest) sent (some roots)) reapply (
              some (
                reapplied J from_empty (some roots) r (record {
                  answers = rest;
                  sent = sent ++ roots_request J from_empty roots ∷ [];
                })))
      go (ok u) = record { kept = refl; wire = refl; valid = v; used = omega arith }
      go (err x) = record { kept = refl; wire = refl; valid = v; used = omega arith }

  skill_call-Replays :
      (call : SkillCall) (c : SkillController V)
      → AreValid V c.extra_roots
      → Replays c call (skill_call J from_empty call c)
  skill_call-Replays (set_roots roots) c v =
      set_roots-Replays c.client.sent c.extra_roots v roots c.client.answers
  skill_call-Replays reapply c v = reapply-Replays c.client.sent c.extra_roots c.client.answers v

  -- The log tells what is remembered and what was sent; an answer is only missed where there are
  -- fewer than calls.
  abbrev Tells :
      ℕ → SkillController V → Option (List (SkillCall × Outcome V) × SkillController V) → Type 0
  Tells n c none = length c.client.answers < n
  Tells n c (some (log, last)) =
      (last.extra_roots ≡ last_set c.extra_roots log)
      × (last.client.sent ≡ c.client.sent ++ sent_in J from_empty c.extra_roots log)

  then_calls-Tells :
      (n : ℕ) (call : SkillCall) (c : SkillController V)
      (step : Option (Outcome V × SkillController V))
      (rest : SkillController V → Option (List (SkillCall × Outcome V) × SkillController V))
      → Replays c call step
      → ((next : SkillController V) → AreValid V next.extra_roots → Tells n next (rest next))
      → Tells (suc n) c (then_calls J from_empty call step rest)
  then_calls-Tells n call c none rest h ih = omega (arith, h)
  then_calls-Tells n call c (some (outcome, next)) rest h ih = go (rest next) (ih next h.valid)
    where
      go :
          (r : Option (List (SkillCall × Outcome V) × SkillController V))
          → Tells n next r
          → Tells (suc n) c (then_calls J from_empty call (some (outcome, next)) (λ m. r))
      go none t = omega (arith, t, h.used)
      go (some (log, last)) (k, w) = (
        rw (sym h.kept) k,
        w
            ∙ rw (h.wire, h.kept)
                (append_assoc c.client.sent (sent_by J from_empty c.extra_roots call)
                  (sent_in J from_empty (remembered c.extra_roots call outcome) log)),
      )

  skill_calls-Tells :
      (calls : List SkillCall) (c : SkillController V)
      → AreValid V c.extra_roots
      → Tells (length calls) c (skill_calls J from_empty calls c)
  unfolding skill_calls
  skill_calls-Tells [] c v = (refl, append_nil c.client.sent)
  skill_calls-Tells (call ∷ rest) c v =
      then_calls-Tells (length rest) call c (skill_call J from_empty call c)
        (skill_calls J from_empty rest) (skill_call-Replays call c v)
        (λ next w. skill_calls-Tells rest next w)

  -- The roots that are replayed are the last ones that were accepted. With an answer to come for
  -- each call, any calls that set roots or reapply them end with a log of their outcomes, which
  -- tells all else: the remembered roots are those of the last call that set some and succeeded,
  -- and what was sent is, for each call in turn, the roots that it sets, if each is valid, or the
  -- roots remembered at that time, and nothing where there are none.
  pub skill_calls-last_set :
      (calls : List SkillCall) (client : Client V)
      → length calls ≤ length client.answers
      → (log : List (SkillCall × Outcome V)) × (last : SkillController V) × (skill_calls J
            from_empty calls
            (new_skills client)
          ≡ some (log, last))
        × (last.extra_roots ≡ last_set none log)
        × (last.client.sent ≡ client.sent ++ sent_in J from_empty none log)
  skill_calls-last_set calls client fits =
      go (skill_calls J from_empty calls (new_skills client)) refl
        (skill_calls-Tells calls (new_skills client) tt)
    where
      go :
          (r : Option (List (SkillCall × Outcome V) × SkillController V))
          → skill_calls J from_empty calls (new_skills client) ≡ r
          → Tells (length calls) (new_skills client) r
          → (log : List (SkillCall × Outcome V)) × (last : SkillController V) × (skill_calls J
                from_empty calls
                (new_skills client)
              ≡ some (log, last))
            × (last.extra_roots ≡ last_set none log)
            × (last.client.sent ≡ client.sent ++ sent_in J from_empty none log)
      go none e t = absurd (omega (arith, t, fits))
      go (some (log, last)) e (k, w) = (log, last, e, k, w)
