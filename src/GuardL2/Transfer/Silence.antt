-- ===== src/GuardL2/Transfer/Silence.antt =====
-- A transfer whose START nobody acknowledges.
use cds_guard.Prelude.{
  ℕ, suc, ◌+◌, ◌≤◌, ◌<◌, ◌≡◌, refl, sym, ap, ◌∙◌, false, none, List, [], ◌∷◌, Bytes, All, length,
  replicate, ◌==◌, if-elim, Bool-cases, ==→≡, inl, inr, arith,
}
use mathlib.Core.Path.{subst}
use cds_guard.GuardL2.Frame.{Mac, build_frame, type_start}
use cds_guard.GuardL2.Sender.Acks.{parse_ack}
use cds_guard.GuardL2.Sender.Rtt.{Rtt}
use cds_guard.GuardL2.Transfer.{
  starting, finished, Sender, on_parsed_ack, begin, handshake, turn, Action, hears, turns, step,
  run, start,
}

-- The turns of the sending thread.
abbrev pub turns_in : List Action → ℕ
turns_in [] = 0
turns_in (hears now buffer n ∷ more) = turns_in more
turns_in (turns now clock ∷ more) = suc (turns_in more)

module _ (src dst : Mac) (sid : ℕ) (bytes : Bytes) (now : ℕ) (rtt : Rtt) where
  abbrev pub start_frame : Bytes
  start_frame = build_frame src dst sid (length bytes) type_start 0 []

  -- No frame that the listener receives is an acknowledgement of the session.
  abbrev pub IsSilent : Action → Type 0
  IsSilent (hears t buffer n) = parse_ack src sid buffer n ≡ none
  IsSilent (turns t clock) = Unit

  -- After so many sendings of START.
  tried : ℕ → Sender
  unfolding start begin
  tried i = record (start src dst sid bytes now rtt) {
    phase = starting i;
    out = replicate i start_frame;
  }

  gave_up : Sender
  unfolding start begin
  gave_up = record (start src dst sid bytes now rtt) {
    phase = finished false;
    out = replicate 5 start_frame;
  }

  step-hears :
      (t : ℕ) (buffer : Bytes) (n : ℕ) (st : Sender)
      → parse_ack src sid buffer n ≡ none
      → step src dst sid bytes (hears t buffer n) st ≡ st
  unfolding step
  step-hears t buffer n st h = ap (λ o. on_parsed_ack (length bytes) t o st) h

  step-gave_up : (a : Action) → IsSilent a → step src dst sid bytes a gave_up ≡ gave_up
  unfolding step turn gave_up
  step-gave_up (hears t buffer n) h = step-hears t buffer n gave_up h
  step-gave_up (turns t clock) h = refl

  step-tried :
      (t : ℕ) (clock : ℕ → ℕ) (i : ℕ)
      → i < 5
      → step src dst sid bytes (turns t clock) (tried i) ≡ tried (suc i)
  unfolding step turn tried handshake
  step-tried t clock i h =
      if-elim (λ (r : Sender). r ≡ tried (suc i)) (i == 5) (λ e. absurd (ground arith))
        (λ e. ap (λ k. record (tried (suc i)) { phase = starting k }) (omega arith))

  step-last : (t : ℕ) (clock : ℕ → ℕ) → step src dst sid bytes (turns t clock) (tried 5) ≡ gave_up
  unfolding step turn tried handshake gave_up
  step-last t clock = refl

  run-gave_up :
      (actions : List Action)
      → All IsSilent actions
      → run src dst sid bytes actions gave_up ≡ gave_up
  unfolding run
  run-gave_up [] h = refl
  run-gave_up (a ∷ more) h =
      ap (run src dst sid bytes more) (step-gave_up a h.0) ∙ run-gave_up more h.1

  run-tried :
      (actions : List Action) (i : ℕ)
      → i ≤ 5
      → 6 ≤ i + turns_in actions
      → All IsSilent actions
      → run src dst sid bytes actions (tried i) ≡ gave_up
  unfolding run
  run-tried [] i low enough h = absurd (omega arith)
  run-tried (hears t buffer n ∷ more) i low enough h =
      ap (run src dst sid bytes more) (step-hears t buffer n (tried i) h.0)
      ∙ run-tried more i low enough h.1
  run-tried (turns t clock ∷ more) i low enough h = elim (Bool-cases (i == 5)) [
    | inl last ↦
        ap (run src dst sid bytes more) (
          subst (λ j. step src dst sid bytes (turns t clock) (tried j) ≡ gave_up)
            (sym (==→≡ i 5 last)) (step-last t clock))
        ∙ run-gave_up more h.1
    | inr again ↦
        ap (run src dst sid bytes more) (step-tried t clock i (ground arith))
        ∙ run-tried more (suc i) (ground arith) (omega (arith, enough)) h.1
  ]

  -- When the listener receives no acknowledgement of the session, `send_reliable_data` returns false after
  -- five turns of its thread, and however long it runs it has sent START five times and nothing else.
  pub run-unanswered :
      (actions : List Action)
      → All IsSilent actions
      → 5 ≤ turns_in actions
      → ((run src dst sid bytes actions (start src dst sid bytes now rtt)).phase ≡ finished false)
        × ((run src dst sid bytes actions (start src dst sid bytes now rtt)).out
            ≡ replicate 5 start_frame)
  unfolding start begin tried gave_up
  run-unanswered actions h enough =
      let e = run-tried actions 1 (omega arith) (omega arith) h in
      (ap (λ (st : Sender). st.phase) e, ap (λ (st : Sender). st.out) e)
