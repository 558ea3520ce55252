-- ===== src/Supervisor/Reached.antt =====
-- The states that the supervisor brings about, and rules for what its actions see in them
-- (src/supervisor/src/lib.rs).
use codex_warden.Prelude.{
  ℕ, ◌≡◌, refl, subst, String, Option, none, some, List, Result, ok, err, arith,
}
use codex_warden.Supervisor.State.{SupervisorError, ProcessOps}
use codex_warden.Supervisor.Run.{Run, pure, continue, map_error, attempt, gets, ◌>>=◌, ◌>>◌}

module _ {W : Type 0} (ops : ProcessOps W) (from : W) where
  -- a state that calls of the operating system lead to, from the first one
  pub data IsReached : W → Type 0 where
    begun : IsReached from
    looked : (path : String) (w : W) → IsReached w → IsReached (ops.exists path w).1
    listed : (w : W) → IsReached w → IsReached (ops.ps_environment w).1
    users_seen : (socket : String) (w : W) → IsReached w → IsReached (ops.socket_users socket w).1
    ran :
        (program : String) (arguments : List String) (w : W)
        → IsReached w
        → IsReached (ops.output program arguments w).1
    spawned :
        (program : String) (arguments : List String) (environment : List (String × String)) (w : W)
        → IsReached w
        → IsReached (ops.spawn program arguments environment w).1
    quit : (w : W) → IsReached w → IsReached (ops.graceful_quit_chatgpt w).1
    slept : (d : ℕ) (w : W) → IsReached w → IsReached (ops.sleep d w)

  -- From a state that is reached, an action leads to one; where it gives a value, the value is
  -- such.
  pub record Leads {A : Type 0} (Q : A → Type 0) (m : Run W A) : Type 0 where
    pub at : (w : W) → IsReached w → IsReached (m w).1 × ((a : A) → (m w).0 ≡ some (ok a) → Q a)

module _ {W : Type 0} {ops : ProcessOps W} {from : W} where
  pub Leads-pure : {A : Type 0} (Q : A → Type 0) (a : A) → Q a → Leads ops from Q (pure a)
  Leads-pure Q a q = record {
    at = λ w r. (r, λ b e. subst Q {x = a} {y = b} (ground (arith, e)) q);
  }

  pub Leads-fail :
      {A : Type 0} (Q : A → Type 0) (e : SupervisorError)
      → Leads ops from Q (λ w. (some (err e), w))
  Leads-fail Q e = record { at = λ w r. (r, λ b p. absurd (ground (arith, p))) }

  pub Leads-gets :
      {A : Type 0} (Q : A → Type 0) (m : W → A × W)
      → ((w : W) → IsReached ops from w → IsReached ops from (m w).1 × Q (m w).0)
      → Leads ops from Q (gets m)
  Leads-gets Q m h = record {
    at = λ w r. ((h w r).0, λ b e. subst Q {x = (m w).0} {y = b} (ground (arith, e)) (h w r).1);
  }

  pub map_error-Leads :
      {A : Type 0} (Q : A → Type 0) (f : String → SupervisorError) (p : Result A String × W)
      → IsReached ops from p.1
      → ((a : A) → p.0 ≡ ok a → Q a)
      → IsReached ops from (map_error f p).1 × ((a : A) → (map_error f p).0 ≡ some (ok a) → Q a)
  map_error-Leads Q f (ok a, w) r h = (r, λ b e. h b (ground (arith, e)))
  map_error-Leads Q f (err x, w) r h = (r, λ b e. absurd (ground (arith, e)))

  pub Leads-attempt :
      {A : Type 0} (Q : A → Type 0) (f : String → SupervisorError) (m : W → Result A String × W)
      → ((w : W)
          → IsReached ops from w
          → IsReached ops from (m w).1 × ((a : A) → (m w).0 ≡ ok a → Q a))
      → Leads ops from Q (attempt f m)
  Leads-attempt Q f m h = record { at = λ w r. map_error-Leads Q f (m w) (h w r).0 (h w r).1 }

  pub continue-Leads :
      {A B : Type 0} (Q : A → Type 0) (R : B → Type 0) (p : Option (Result A SupervisorError) × W)
      (f : A → Run W B)
      → IsReached ops from p.1
      → ((a : A) → p.0 ≡ some (ok a) → Q a)
      → ((a : A) → Q a → Leads ops from R (f a))
      → IsReached ops from (continue p f).1 × ((b : B) → (continue p f).0 ≡ some (ok b) → R b)
  continue-Leads Q R (none, w) f r hp hf = (r, λ b e. absurd (ground (arith, e)))
  continue-Leads Q R (some (err x), w) f r hp hf = (r, λ b e. absurd (ground (arith, e)))
  continue-Leads Q R (some (ok a), w) f r hp hf = (hf a (hp a refl)).at w r

  pub Leads-bind :
      {A B : Type 0} (Q : A → Type 0) (R : B → Type 0) (m : Run W A) (f : A → Run W B)
      → Leads ops from Q m
      → ((a : A) → Q a → Leads ops from R (f a))
      → Leads ops from R (m >>= f)
  Leads-bind Q R m f hm hf = record {
    at = λ w r. continue-Leads Q R (m w) f (hm.at w r).0 (hm.at w r).1 hf;
  }

  pub Leads-then :
      {A B : Type 0} (Q : A → Type 0) (R : B → Type 0) (m : Run W A) (n : Run W B)
      → Leads ops from Q m
      → ((a : A) → Q a → Leads ops from R n)
      → Leads ops from R (m >> n)
  Leads-then Q R m n hm hn = record {
    at = λ w r. continue-Leads Q R (m w) (λ a. n) (hm.at w r).0 (hm.at w r).1 hn;
  }
