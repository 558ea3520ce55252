-- ===== src/Transport/Greetings.antt =====
-- What the handshake does to the events and to the gate (src/transport/src/lib.rs).
use codex_warden.Prelude.{
  ℕ, suc, ◌+◌, ◌≤◌, ◌<◌, ◌≡◌, refl, ◌∙◌, inl, inr, String, Option, none, some, List, [], ◌∷◌,
  Result, ok, err, length, arith, Bool-cases, word_mod,
}
use codex_warden.Protocol.Json.{Json}
use codex_warden.Protocol.Frame.{IncomingFrame, RpcId}
use codex_warden.Protocol.Request.{request as request_value, notification}
use codex_warden.Transport.State.{TransportConfig, Wire, Link, Arrival, write}
use codex_warden.Transport.Handshake.{
  deliver, message_json, Greeting, timed_out, ended, failed, message, greeting_frame, greet_frame,
  greet_value, greet_step, then_greet, greet, finish_greeting, initialize, initialize_params,
}
use codex_warden.Transport.Sequences.{
  Ordered, Grows, IsSilent, silent_after-Grows, write-IsSilent, deliver-Grows,
}

module _ {V : Type 0} where
  then_greet-Grows :
      (l : Link V) (n : ℕ) (step : Option (Result (Unit {0}) String) × Link V)
      (rest : Link V → Option (Result (Unit {0}) String) × Link V)
      → Grows 1 l step.1
      → ((next : Link V)
          → Ordered next
          → next.sequence ≤ l.sequence + 1
          → Grows n next (rest next).1)
      → Grows (suc n) l (then_greet step rest).1
  then_greet-Grows l n (some e, next) rest g ih = (g.0, omega (arith, g.1))
  then_greet-Grows l n (none, next) rest g ih =
      let r = ih next g.0 g.1 in (r.0, omega (arith, g.1, r.1))

  write-ready : (e : Option String) (m : Wire V) (l : Link V) → (write e m l).ready ≡ l.ready
  write-ready none m l = refl
  write-ready (some e) m l = refl

module _ {V : Type 0} (J : Json V) (from_str : String → Result V String)
    (from_slice : List ℕ → Result V String) (config : TransportConfig) where
  greet_frame-Grows :
      (attempts : ℕ) (frame : IncomingFrame V) (arrival : Arrival) (l : Link V)
      → Ordered l
      → l.sequence + 1 < word_mod
      → Grows 1 l (greet_frame J from_str from_slice config attempts frame arrival l).1
  unfolding greet_frame
  greet_frame-Grows attempts frame arrival l h fits =
      let grown = deliver-Grows J arrival frame l h fits in
      elim (Bool-cases arrival.ingress_open) [
        | inl here ↦ rw (here, greet_frame) grown
        | inr gone ↦ rw (gone, greet_frame) grown
      ]

  greet_value-Grows :
      (attempts : ℕ) (r : Result (Option (IncomingFrame V)) String) (arrival : Arrival) (l : Link V)
      → Ordered l
      → l.sequence + 1 < word_mod
      → Grows 1 l (greet_value J from_str from_slice config attempts r arrival l).1
  greet_value-Grows attempts (err e) arrival l h fits = (h, omega arith)
  greet_value-Grows attempts (ok none) arrival l h fits = (h, omega arith)
  greet_value-Grows attempts (ok (some frame)) arrival l h fits =
      greet_frame-Grows attempts frame arrival l h fits

  greet_step-Grows :
      (attempts : ℕ) (greeting : Greeting) (l : Link V)
      → Ordered l
      → l.sequence + 1 < word_mod
      → Grows 1 l (greet_step J from_str from_slice config attempts greeting l).1
  unfolding greet_step
  greet_step-Grows attempts timed_out l h fits = (h, omega arith)
  greet_step-Grows attempts ended l h fits = (h, omega arith)
  greet_step-Grows attempts (failed e) l h fits = (h, omega arith)
  greet_step-Grows attempts (message m arrival) l h fits =
      greet_value-Grows attempts
        (greeting_frame J from_str from_slice config (message_json from_str from_slice m)) arrival l
        h fits

  greet-Grows :
      (attempts : ℕ) (greetings : List Greeting) (l : Link V)
      → Ordered l
      → l.sequence + length greetings < word_mod
      → Grows (length greetings) l (greet J from_str from_slice config attempts greetings l).1
  unfolding greet
  greet-Grows attempts [] l h fits = (h, omega arith)
  greet-Grows attempts (greeting ∷ rest) l h fits =
      then_greet-Grows l (length rest) (greet_step J from_str from_slice config attempts greeting l)
        (greet J from_str from_slice config attempts rest)
        (greet_step-Grows attempts greeting l h (omega arith))
        (λ next o le. greet-Grows attempts rest next o (omega (arith, le)))

  finish_greeting-IsSilent :
      (last : Option String) (g : Option (Result (Unit {0}) String) × Link V)
      → IsSilent g.1 (finish_greeting J from_str from_slice config last g).1
  finish_greeting-IsSilent last (none, link) = (refl, refl, refl)
  finish_greeting-IsSilent last (some (err e), link) = (refl, refl, refl)
  finish_greeting-IsSilent last (some (ok u), link) =
      write-IsSilent last (Wire.frame (notification J "initialized" (J.object []))) link

  pub initialize-Grows :
      (attempts : ℕ) (first last : Option String) (greetings : List Greeting) (l : Link V)
      → Ordered l
      → l.sequence + length greetings < word_mod
      → Grows
          (length greetings)
          l
          (initialize J from_str from_slice config attempts first last greetings l).1
  unfolding initialize
  initialize-Grows attempts (some e) last greetings l h fits = (h, omega arith)
  initialize-Grows attempts none last greetings l h fits =
      let opened =
        write none
          (Wire.frame (
            request_value J (RpcId.number 0) "initialize"
              (initialize_params J from_str from_slice config)))
          l in
      let grown = greet-Grows attempts greetings opened h fits in
      let ended_at = greet J from_str from_slice config attempts greetings opened in
      silent_after-Grows (length greetings) l ended_at.1
        (finish_greeting J from_str from_slice config last ended_at).1
        (finish_greeting-IsSilent last ended_at) (grown.0, grown.1)

  deliver-ready :
      (arrival : Arrival) (frame : IncomingFrame V) (l : Link V)
      → (deliver J arrival frame l).ready ≡ l.ready
  unfolding deliver
  deliver-ready arrival frame l = elim (Bool-cases arrival.ingress_open) [
    | inl here ↦ rw (here, deliver) refl
    | inr gone ↦ rw (gone, deliver) refl
  ]

  greet_frame-ready :
      (attempts : ℕ) (frame : IncomingFrame V) (arrival : Arrival) (l : Link V)
      → (greet_frame J from_str from_slice config attempts frame arrival l).1.ready ≡ l.ready
  unfolding greet_frame
  greet_frame-ready attempts frame arrival l = elim (Bool-cases arrival.ingress_open) [
    | inl here ↦ rw (here, greet_frame) (deliver-ready arrival frame l)
    | inr gone ↦ rw (gone, greet_frame) (deliver-ready arrival frame l)
  ]

  greet_value-ready :
      (attempts : ℕ) (r : Result (Option (IncomingFrame V)) String) (arrival : Arrival) (l : Link V)
      → (greet_value J from_str from_slice config attempts r arrival l).1.ready ≡ l.ready
  greet_value-ready attempts (err e) arrival l = refl
  greet_value-ready attempts (ok none) arrival l = refl
  greet_value-ready attempts (ok (some frame)) arrival l =
      greet_frame-ready attempts frame arrival l

  greet_step-ready :
      (attempts : ℕ) (greeting : Greeting) (l : Link V)
      → (greet_step J from_str from_slice config attempts greeting l).1.ready ≡ l.ready
  unfolding greet_step
  greet_step-ready attempts timed_out l = refl
  greet_step-ready attempts ended l = refl
  greet_step-ready attempts (failed e) l = refl
  greet_step-ready attempts (message m arrival) l =
      greet_value-ready attempts
        (greeting_frame J from_str from_slice config (message_json from_str from_slice m)) arrival l

  then_greet-ready :
      (l : Link V) (step : Option (Result (Unit {0}) String) × Link V)
      (rest : Link V → Option (Result (Unit {0}) String) × Link V)
      → step.1.ready ≡ l.ready
      → ((next : Link V) → (rest next).1.ready ≡ next.ready)
      → (then_greet step rest).1.ready ≡ l.ready
  then_greet-ready l (some e, next) rest h ih = h
  then_greet-ready l (none, next) rest h ih = ih next ∙ h

  greet-ready :
      (attempts : ℕ) (greetings : List Greeting) (l : Link V)
      → (greet J from_str from_slice config attempts greetings l).1.ready ≡ l.ready
  unfolding greet
  greet-ready attempts [] l = refl
  greet-ready attempts (greeting ∷ rest) l =
      then_greet-ready l (greet_step J from_str from_slice config attempts greeting l)
        (greet J from_str from_slice config attempts rest) (greet_step-ready attempts greeting l)
        (λ next. greet-ready attempts rest next)

  finish_greeting-ready :
      (last : Option String) (g : Option (Result (Unit {0}) String) × Link V)
      → (finish_greeting J from_str from_slice config last g).1.ready ≡ g.1.ready
  finish_greeting-ready last (none, link) = refl
  finish_greeting-ready last (some (err e), link) = refl
  finish_greeting-ready last (some (ok u), link) =
      write-ready last (Wire.frame (notification J "initialized" (J.object []))) link

  pub initialize-ready :
      (attempts : ℕ) (first last : Option String) (greetings : List Greeting) (l : Link V)
      → (initialize J from_str from_slice config attempts first last greetings l).1.ready ≡ l.ready
  unfolding initialize
  initialize-ready attempts (some e) last greetings l = refl
  initialize-ready attempts none last greetings l =
      let first =
        write none
          (Wire.frame (
            request_value J (RpcId.number 0) "initialize"
              (initialize_params J from_str from_slice config)))
          l in
      finish_greeting-ready last (greet J from_str from_slice config attempts greetings first)
      ∙ greet-ready attempts greetings first
