-- ===== src/GuardL2/Transfer/Progress/Rounds.antt =====
-- A round: what the window lets through is sent, acknowledged and passed.
use cds_guard.Prelude.{
  ℕ, ◌+◌, ◌-◌, ◌^◌, ◌<◌, ◌≤◌, ◌≡◌, refl, sym, ap, ◌∙◌, List, [], ◌∷◌, ◌++◌, Bytes, min, u32, leb,
  if-elim, arith,
}
use mathlib.Core.Path.{subst}
use cds_guard.GuardL2.Frame.{Mac}
use cds_guard.GuardL2.Sender.Window.{Window}
use cds_guard.GuardL2.Sender.Frames.{length-frames_to_send}
use cds_guard.GuardL2.Transfer.{
  ready, waiting, windowed, sending, Sender, total_packets_of, after_wait, send_window, turn,
  Action, step, run,
}
use cds_guard.GuardL2.Transfer.Progress.{Grown, AckedFrom}
use cds_guard.GuardL2.Transfer.Progress.Sends.{
  frames_to_send-IsConsecutive, IsFull, send_frames-IsFull,
}
use cds_guard.GuardL2.Transfer.Progress.Replies.{
  go, runs, runs-append, replies, IsReady, replies-Grown, after_wait-acked,
}

module _ (src dst : Mac) (sid : ℕ) (bytes : Bytes) (sid_fits : sid < 2 ^ 32)
    (fits : total_packets_of bytes + 513 < 2 ^ 32) where
  pub turn_top :
      (st : Sender)
      → st.phase ≡ ready
      → st.send_window_base ≤ total_packets_of bytes
      → step src dst sid bytes go st ≡ record st { phase = windowed (u32 st.window.cwnd) }
  unfolding step turn
  turn_top st e h =
      ap (λ p. turn src dst sid bytes 0 (λ k. 0) p st) e
      ∙ if-elim (λ (r : Sender). r ≡ record st { phase = windowed (u32 st.window.cwnd) })
          (leb st.send_window_base (total_packets_of bytes)) (λ t. refl)
          (λ f. absurd (ground arith))

  unfoldable pub window_of : Sender → ℕ
  window_of st = min (u32 st.window.cwnd) st.window.rwnd

  -- What three turns send.
  flight : Sender → Sender
  flight st =
      send_window src dst sid bytes (λ k. 0) (window_of st)
        (record st { phase = sending (window_of st) })

  three_turns :
      (st : Sender)
      → st.phase ≡ ready
      → st.send_window_base ≤ total_packets_of bytes
      → runs src dst sid bytes (go ∷ go ∷ go ∷ []) st ≡ flight st
  unfolding run step turn flight window_of
  three_turns st e h = ap (runs src dst sid bytes (go ∷ go ∷ [])) (turn_top st e h)

  unfoldable pub size_of : Sender → ℕ
  unfolding window_of
  size_of st =
      min (u32 (st.send_window_base + window_of st)) (total_packets_of bytes + 1) - st.next_seq_num

  flight_lem :
      (st : Sender)
      → st.send_window_base ≡ st.next_seq_num
      → IsFull (flight st)
        × ((flight st).send_window_base ≡ st.send_window_base)
        × ((flight st).next_seq_num ≡ st.next_seq_num + size_of st)
        × ((flight st).phase ≡ waiting)
        × ((flight st).window ≡ st.window)
  unfolding flight send_window size_of
  flight_lem st e =
      let total = total_packets_of bytes in
      let limit = u32 (st.send_window_base + window_of st) in
      let sent =
        send_frames-IsFull (λ k. 0) _ (record st { phase = waiting })
          (frames_to_send-IsConsecutive src dst sid bytes limit total (total + 1) st.next_seq_num
            (omega (arith, fits)))
          (λ k low high. absurd (omega (arith, e))) in
      let counted =
        length-frames_to_send src dst sid bytes limit total (omega (arith, fits)) (total + 1)
          st.next_seq_num (omega arith) in
      (sent.0, sent.1, omega (arith, sent.2, counted), sent.3, sent.4)

  turn_waiting :
      (st : Sender)
      → st.phase ≡ waiting
      → runs src dst sid bytes (go ∷ []) st ≡ after_wait 0 (λ k. 0) st
  unfolding run step turn
  turn_waiting st e = ap (λ p. turn src dst sid bytes 0 (λ k. 0) p st) e

  pub size_bounds :
      (b : ℕ) (st : Sender)
      → IsReady src dst sid bytes b st
      → b ≤ total_packets_of bytes
      → (1 ≤ size_of st) × (b + size_of st ≤ total_packets_of bytes + 1)
  unfolding size_of window_of
  size_bounds b st r h =
      let whole : u32 st.window.cwnd ≡ st.window.cwnd = omega (arith, r.cwnd_high, fits) in
      let fits_too : u32 (st.send_window_base + min (u32 st.window.cwnd) st.window.rwnd)
          ≡ b + min st.window.cwnd st.window.rwnd =
        omega (arith, whole, r.base_is, r.rwnd_in, fits) in
      (
        omega (arith, fits_too, r.next_is, r.cwnd_low, r.rwnd_in),
        omega (arith, fits_too, r.next_is),
      )

  unfoldable pub round : ℕ → Sender → List Action
  round b st = (go ∷ go ∷ go ∷ []) ++ (replies src dst sid bytes b (size_of st) ++ (go ∷ []))

  -- A round leaves the sender ready behind the packets that it sent.
  pub round-IsReady :
      (b : ℕ) (st : Sender)
      → IsReady src dst sid bytes b st
      → b ≤ total_packets_of bytes
      → IsReady src dst sid bytes (b + size_of st) (runs src dst sid bytes (round b st) st)
  unfolding round
  round-IsReady b st r h = subst (IsReady src dst sid bytes (b + m)) (sym path) (record {
    at_top = last.2;
    base_is = last.0 ∙ next_at;
    next_is = last.1 ∙ next_at;
    cwnd_low =
        subst (λ (w : Window). 1 ≤ w.cwnd) (sym last.3)
          (replied.0.cwnd_low (subst (λ (w : Window). 1 ≤ w.cwnd) (sym sent.4) r.cwnd_low));
    cwnd_high =
        subst (λ (w : Window). w.cwnd ≤ b + m + 1) (sym last.3)
          (omega (arith, replied.0.cwnd_high, ap (λ (w : Window). w.cwnd) sent.4, r.cwnd_high));
    rwnd_in =
        subst (λ (w : Window). (1 ≤ w.rwnd) × (w.rwnd ≤ 512)) (sym last.3)
          (replied.0.rwnd_in
            (subst (λ (w : Window). (1 ≤ w.rwnd) × (w.rwnd ≤ 512)) (sym sent.4) r.rwnd_in));
  })
    where
      m : ℕ
      m = size_of st

      bounds : (1 ≤ size_of st) × (b + size_of st ≤ total_packets_of bytes + 1)
      bounds = size_bounds b st r h

      f : Sender
      f = flight st

      sent :
          IsFull (flight st)
          × ((flight st).send_window_base ≡ st.send_window_base)
          × ((flight st).next_seq_num ≡ st.next_seq_num + size_of st)
          × ((flight st).phase ≡ waiting)
          × ((flight st).window ≡ st.window)
      sent = flight_lem st (r.base_is ∙ sym r.next_is)

      g : Sender
      g = runs src dst sid bytes (replies src dst sid bytes b m) f

      replied : Grown m f g × AckedFrom b m g.send_buffer
      replied =
          replies-Grown src dst sid bytes sid_fits fits m b f (omega (arith, bounds.1, fits))
            (λ j low high.
              sent.0 j (omega (arith, sent.1, r.base_is)) (omega (arith, sent.2, r.next_is)))

      base_at : g.send_window_base ≡ b
      base_at = replied.0.base_is ∙ sent.1 ∙ r.base_is

      next_at : g.next_seq_num ≡ b + m
      next_at = omega (arith, replied.0.next_is, sent.2, r.next_is)

      last :
          ((after_wait 0 (λ k. 0) g).send_window_base ≡ g.next_seq_num)
          × ((after_wait 0 (λ k. 0) g).next_seq_num ≡ g.next_seq_num)
          × ((after_wait 0 (λ k. 0) g).phase ≡ ready)
          × ((after_wait 0 (λ k. 0) g).window ≡ g.window)
      last =
          after_wait-acked src dst sid bytes sid_fits fits m g (omega (arith, base_at, next_at))
            (omega (arith, base_at, bounds.1, fits))
            (λ k low high. replied.1 k (omega (arith, base_at)) (omega (arith, base_at)))

      path :
          runs src dst sid bytes
            ((go ∷ go ∷ go ∷ []) ++ (replies src dst sid bytes b m ++ (go ∷ [])))
            st
          ≡ after_wait 0 (λ k. 0) g
      path =
          runs-append src dst sid bytes (go ∷ go ∷ go ∷ [])
            (replies src dst sid bytes b m ++ (go ∷ [])) st
          ∙ ap (runs src dst sid bytes (replies src dst sid bytes b m ++ (go ∷ [])))
              (three_turns st r.at_top (omega (arith, r.base_is, h)))
          ∙ runs-append src dst sid bytes (replies src dst sid bytes b m) (go ∷ []) f
          ∙ turn_waiting g (replied.0.phase_is ∙ sent.3)
