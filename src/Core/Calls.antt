-- ===== src/Core/Calls.antt =====
-- Calls of the skill roots in their order, and what their log tells (src/core/src/skills.rs).
use codex_warden.Prelude.{
  Bool, true, String, Option, none, some, List, [], ◌∷◌, ◌++◌, Result, ok, err,
}
use codex_warden.Protocol.Json.{Json}
use codex_warden.Core.Skills.{
  SkillManagementError, SkillController, encode_extra_roots, Called, roots_params, set_extra_roots,
  reapply_extra_roots,
}

pub data SkillCall : Type 0 where
  set_roots : List String → SkillCall
  -- behind a reconnect
  reapply : SkillCall

abbrev pub Outcome : Type 0 → Type 0
Outcome V = Result Bool (SkillManagementError V)

module _ {V : Type 0} where
  -- The roots of the last call that set some and succeeded.
  abbrev pub remembered : Option (List String) → SkillCall → Outcome V → Option (List String)
  remembered old (set_roots roots) (ok b) = some roots
  remembered old (set_roots roots) (err e) = old
  remembered old reapply outcome = old

  abbrev pub last_set : Option (List String) → List (SkillCall × Outcome V) → Option (List String)
  last_set old [] = old
  last_set old ((call, outcome) ∷ log) = last_set (remembered old call outcome) log

  abbrev pub as_outcome : Called V (Unit {0}) → Option (Outcome V × SkillController V)
  as_outcome none = none
  as_outcome (some (ok u, c)) = some (ok true, c)
  as_outcome (some (err e, c)) = some (err e, c)

module _ {V : Type 0} (J : Json V) (from_empty : V → Result (Unit {0}) String) where
  unfoldable pub skill_call : SkillCall → SkillController V → Option (Outcome V × SkillController V)
  unfolding set_extra_roots reapply_extra_roots
  skill_call (set_roots roots) c = as_outcome (set_extra_roots J from_empty roots c)
  skill_call reapply c = reapply_extra_roots J from_empty c

  abbrev pub then_calls :
      SkillCall
      → Option (Outcome V × SkillController V)
      → (SkillController V → Option (List (SkillCall × Outcome V) × SkillController V))
      → Option (List (SkillCall × Outcome V) × SkillController V)
  then_calls call none rest = none
  then_calls call (some (outcome, c)) rest = with_outcome (rest c)
    where
      with_outcome :
          Option (List (SkillCall × Outcome V) × SkillController V)
          → Option (List (SkillCall × Outcome V) × SkillController V)
      with_outcome none = none
      with_outcome (some (log, last)) = some ((call, outcome) ∷ log, last)

  -- Calls in their order, with their outcomes; `none` where an answer never comes.
  unfoldable pub skill_calls :
      List SkillCall → SkillController V → Option (List (SkillCall × Outcome V) × SkillController V)
  unfolding skill_call
  skill_calls [] c = some ([], c)
  skill_calls (call ∷ rest) c = then_calls call (skill_call call c) (skill_calls rest)

  -- the request for roots
  abbrev pub roots_request : List String → String × V
  roots_request roots = ("skills/extraRoots/set", roots_params J from_empty roots)

  abbrev pub accepted_request :
      List String → Result (List String) (SkillManagementError V) → List (String × V)
  accepted_request roots (ok encoded) = roots_request roots ∷ []
  accepted_request roots (err e) = []

  -- What a call sends, when such roots are remembered: the roots that it sets, if they are all
  -- valid, or the ones that are remembered.
  abbrev pub sent_by : Option (List String) → SkillCall → List (String × V)
  sent_by old (set_roots roots) = accepted_request roots (encode_extra_roots roots)
  sent_by none reapply = []
  sent_by (some roots) reapply = roots_request roots ∷ []

  abbrev pub sent_in : Option (List String) → List (SkillCall × Outcome V) → List (String × V)
  sent_in old [] = []
  sent_in old ((call, outcome) ∷ log) =
      sent_by old call ++ sent_in (remembered old call outcome) log
