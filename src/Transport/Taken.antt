-- ===== src/Transport/Taken.antt =====
-- Which inputs a connection takes (`drive` of src/transport/src/lib.rs).
use codex_warden.Prelude.{ℕ, ◌≡◌, refl, String, none, some, List, [], ◌∷◌, Result}
use codex_warden.Protocol.Json.{Json}
use codex_warden.Transport.State.{TransportConfig, Link, Session}
use codex_warden.Transport.Drive.{DriveExit, Step, then_drive, Input, drive_step, drive_loop}

module _ {V : Type 0} where
  -- The session that a connection begins with.
  abbrev pub begun : ℕ → Link V → Session V
  begun started link = record { link = link; pending = []; last_read = started }

  -- One input, and those taken behind it unless it ends the loop.
  abbrev pub taken_by : Input V → Step V → (Session V → List (Input V)) → List (Input V)
  taken_by input (some exit, s) rest = input ∷ []
  taken_by input (none, s) rest = input ∷ rest s

  then_drive-taken :
      (input : Input V) (s : Session V) (step : Step V) (rest : List (Input V) → Session V → Step V)
      (inputs : List (Input V)) (more : Session V → List (Input V)) (exit : DriveExit)
      → ((next : Session V)
          → (rest inputs next).0 ≡ some exit
          → rest (more next) next ≡ rest inputs next)
      → (then_drive step (rest inputs)).0 ≡ some exit
      → (ended : List (Input V)) × (taken_by input step more ≡ input ∷ ended)
        × (then_drive step (rest ended) ≡ then_drive step (rest inputs))
  then_drive-taken input s (some x, next) rest inputs more exit ih e = ([], refl, refl)
  then_drive-taken input s (none, next) rest inputs more exit ih e = (more next, refl, ih next e)

module _ {V : Type 0} (J : Json V) (from_str : String → Result V String)
    (from_slice : List ℕ → Result V String) (idle_text : ℕ → String) (config : TransportConfig)
    (attempts : ℕ) where
  -- The inputs that the loop takes: each one up to the first that ends it, and that one.
  abbrev pub taken : List (Input V) → Session V → List (Input V)
  taken [] s = []
  taken (input ∷ rest) s =
      taken_by input (drive_step J from_str from_slice idle_text config attempts input s)
        (taken rest)

  -- Inputs behind the one that ends the loop do not matter.
  pub drive_loop-taken :
      (inputs : List (Input V)) (s : Session V) (exit : DriveExit)
      → (drive_loop J from_str from_slice idle_text config attempts inputs s).0 ≡ some exit
      → drive_loop J from_str from_slice idle_text config attempts (taken inputs s) s
        ≡ drive_loop J from_str from_slice idle_text config attempts inputs s
  unfolding drive_loop
  drive_loop-taken [] s exit e = refl
  drive_loop-taken (input ∷ rest) s exit e =
      let (ended, took, same) =
        then_drive-taken input s
          (drive_step J from_str from_slice idle_text config attempts input s)
          (drive_loop J from_str from_slice idle_text config attempts) rest (taken rest) exit
          (λ next. drive_loop-taken rest next exit) e in
      rw (took, drive_loop) same

  -- The inputs that a connection takes: each one up to the first that ends it, and that one.
  abbrev pub inputs_taken : ℕ → List (Input V) → Link V → List (Input V)
  inputs_taken started inputs link = taken inputs (begun started link)
