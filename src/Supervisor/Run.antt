-- ===== src/Supervisor/Run.antt =====
-- Actions of the supervisor: they change the operating system, fail with an error, or run out of
-- fuel.
use codex_warden.Prelude.{String, Option, none, some, Result, ok, err}
use codex_warden.Supervisor.State.{SupervisorError}

abbrev pub Run : Type 0 → Type 0 → Type 0
Run W A = W → Option (Result A SupervisorError) × W

infixl 5 ◌>>=◌ ◌>>◌
module _ {W : Type 0} where
  abbrev pub pure : {A : Type 0} → A → Run W A
  pure a w = (some (ok a), w)

  abbrev pub fail : {A : Type 0} → SupervisorError → Run W A
  fail e w = (some (err e), w)

  abbrev pub continue :
      {A B : Type 0}
      → Option (Result A SupervisorError) × W
      → (A → Run W B)
      → Option (Result B SupervisorError) × W
  continue (none, w) f = (none, w)
  continue (some (err e), w) f = (some (err e), w)
  continue (some (ok a), w) f = f a w

  abbrev pub ◌>>=◌ : {A B : Type 0} → Run W A → (A → Run W B) → Run W B
  ◌>>=◌ m f w = continue (m w) f

  abbrev pub ◌>>◌ : {A B : Type 0} → Run W A → Run W B → Run W B
  ◌>>◌ m n w = continue (m w) (λ a. n)

  abbrev pub map_error :
      {A : Type 0}
      → (String → SupervisorError)
      → Result A String × W
      → Option (Result A SupervisorError) × W
  map_error f (ok a, w) = (some (ok a), w)
  map_error f (err e, w) = (some (err (f e)), w)

  -- `.map_err(f)?`
  abbrev pub attempt :
      {A : Type 0} → (String → SupervisorError) → (W → Result A String × W) → Run W A
  attempt f m w = map_error f (m w)

  -- an action that cannot fail
  abbrev pub gets : {A : Type 0} → (W → A × W) → Run W A
  gets m w = let (a, w') = m w in (some (ok a), w')
