-- ===== src/Supervisor/Rules.antt =====
-- Actions that end: one rule for each way to build them (src/supervisor/src/lib.rs).
use codex_warden.Prelude.{◌≡◌, refl, String, Option, none, some, Result, ok, err, arith}
use codex_warden.Supervisor.State.{SupervisorError}
use codex_warden.Supervisor.Run.{Run, continue, map_error, pure, attempt, gets, ◌>>=◌, ◌>>◌}

module _ {W A : Type 0} where
  -- The fuel was enough: there is a value or an error.
  abbrev pub Returns : Option (Result A SupervisorError) × W → Type 0
  Returns p = (r : Result A SupervisorError) × (p.0 ≡ some r)

  pub map_error-Returns :
      (f : String → SupervisorError) (p : Result A String × W) → Returns (map_error f p)
  map_error-Returns f (ok a, w) = (ok a, refl)
  map_error-Returns f (err e, w) = (err (f e), refl)

  pub map_error-state :
      (f : String → SupervisorError) (p : Result A String × W) → (map_error f p).1 ≡ p.1
  map_error-state f (ok a, w) = refl
  map_error-state f (err e, w) = refl

pub continue-Returns :
    {W A B : Type 0} (p : Option (Result A SupervisorError) × W) (f : A → Run W B)
    → Returns p
    → ((a : A) → Returns (f a p.1))
    → Returns (continue p f)
continue-Returns (none, w) f (r, e) h = absurd (ground (arith, e))
continue-Returns (some (err x), w) f r h = (err x, refl)
continue-Returns (some (ok a), w) f r h = h a

-- An action that ends from every state, one rule for each way to build it.
pub record Ends {W A : Type 0} (m : Run W A) : Type 0 where
  pub at : (w : W) → Returns (m w)

module _ {W A : Type 0} where
  pub Ends-pure : (a : A) → Ends {W = W} (pure a)
  Ends-pure a = record { at = λ w. (ok a, refl) }

  pub Ends-gets : (m : W → A × W) → Ends (gets m)
  Ends-gets m = record { at = λ w. (ok (m w).0, refl) }

  pub Ends-attempt :
      (f : String → SupervisorError) (m : W → Result A String × W) → Ends (attempt f m)
  Ends-attempt f m = record { at = λ w. map_error-Returns f (m w) }

module _ {W A B : Type 0} where
  pub Ends-bind : (m : Run W A) (f : A → Run W B) → Ends m → ((a : A) → Ends (f a)) → Ends (m >>= f)
  Ends-bind m f hm hf = record {
    at = λ w. continue-Returns (m w) f (hm.at w) (λ a. (hf a).at (m w).1);
  }

  pub Ends-then : (m : Run W A) (n : Run W B) → Ends m → Ends n → Ends (m >> n)
  Ends-then m n hm hn = record {
    at = λ w. continue-Returns (m w) (λ a. n) (hm.at w) (λ a. hn.at (m w).1);
  }

pub ruleset ends_rules = (Ends-pure, Ends-gets, Ends-attempt, Ends-bind, Ends-then)
