-- ===== src/GuardL2/Sender/Window/Growth.antt =====
-- How the congestion window grows.
use cds_guard.Prelude.{
  ℕ, zero, suc, ◌+◌, ◌^◌, ◌<◌, ◌≤◌, ◌≡◌, ◌∙◌, List, [], ◌∷◌, length, u32, ltb, leb, if-elim, arith,
}
use mathlib.Core.Path.{subst}
use cds_guard.GuardL2.Sender.Window.{
  Window, is_handshake, grow, on_ack_received, on_packet_loss, start_window, WindowEvent, acked,
  lost, run_window,
}

-- The windows stay usable: at least one frame, a threshold of at least two, fewer acknowledgements
-- counted than there are frames in the window.
pub record IsWindow (limit : ℕ) (w : Window) : Type 0 where
  pub some_frame : 1 ≤ w.cwnd
  pub bounded : w.cwnd ≤ limit
  pub threshold : 2 ≤ w.ssthresh
  pub counted : w.ack_count < w.cwnd

grow-IsWindow :
    (limit : ℕ) (w : Window) → limit + 1 < 2 ^ 32 → IsWindow limit w → IsWindow (limit + 1) (grow w)
unfolding grow
grow-IsWindow limit w small g =
    if-elim (IsWindow (limit + 1)) (ltb w.cwnd w.ssthresh)
      (λ slow. record {
        some_frame = omega arith;
        bounded = omega (arith, g.bounded);
        threshold = g.threshold;
        counted = omega (arith, g.counted);
      })
      (λ _.
        if-elim (IsWindow (limit + 1)) (leb (u32 w.cwnd) (u32 (w.ack_count + 1)))
          (λ full. record {
            some_frame = omega arith;
            bounded = omega (arith, g.bounded);
            threshold = g.threshold;
            counted = omega arith;
          })
          (λ room. record {
            some_frame = g.some_frame;
            bounded = omega (arith, g.bounded);
            threshold = g.threshold;
            counted = ground (arith, g.bounded, g.counted);
          }))

loss-IsWindow :
    (limit : ℕ) (w : Window) → limit < 2 ^ 32 → IsWindow limit w → IsWindow limit (on_packet_loss w)
unfolding on_packet_loss
loss-IsWindow limit w small g = record {
  some_frame = omega arith;
  bounded = omega (arith, g.some_frame, g.bounded);
  threshold = omega arith;
  counted = omega arith;
}

IsWindow-weaken : (limit : ℕ) (w : Window) → IsWindow limit w → IsWindow (limit + 1) w
IsWindow-weaken limit w g = record {
  some_frame = g.some_frame;
  bounded = omega (arith, g.bounded);
  threshold = g.threshold;
  counted = g.counted;
}

ack-IsWindow :
    (total limit ack_seq advertised : ℕ) (w : Window)
    → limit + 1 < 2 ^ 32
    → IsWindow limit w
    → IsWindow (limit + 1) (on_ack_received total ack_seq advertised w)
unfolding on_ack_received
ack-IsWindow total limit ack_seq advertised w small g =
    if-elim (IsWindow (limit + 1)) (is_handshake total ack_seq)
      (λ _. IsWindow-weaken limit _ (opened g)) (λ _. grow-IsWindow limit _ small (opened g))
  where
    opened : IsWindow limit w → IsWindow limit (record w { rwnd = advertised })
    opened g = record {
      some_frame = g.some_frame;
      bounded = g.bounded;
      threshold = g.threshold;
      counted = g.counted;
    }

plus_zero : (n : ℕ) → n ≡ n + 0
plus_zero n = omega arith

next : (a b : ℕ) → a + 1 + b ≡ a + suc b
next a b = omega arith

run-IsWindow :
    (total limit : ℕ) (es : List WindowEvent) (w : Window)
    → limit + length es < 2 ^ 32
    → IsWindow limit w
    → IsWindow (limit + length es) (run_window total es w)
unfolding run_window
run-IsWindow total limit [] w small g = subst (λ l. IsWindow l w) (plus_zero limit) g
run-IsWindow total limit (acked seq advertised ∷ es) w small g =
    subst (λ l. IsWindow l (run_window total (acked seq advertised ∷ es) w))
      (next limit (length es))
      (run-IsWindow total (limit + 1) es _ (omega arith)
        (ack-IsWindow total limit seq advertised w (omega arith) g))
run-IsWindow total limit (lost ∷ es) w small g =
    subst (λ l. IsWindow l (run_window total (lost ∷ es) w)) (next limit (length es))
      (run-IsWindow total (limit + 1) es _ (omega arith)
        (IsWindow-weaken limit _ (loss-IsWindow limit w (omega arith) g)))

-- Over any history of fewer than 2 ^ 32 - 1 acknowledgements and losses, the congestion window has at
-- least one frame and at most one more than there were events, the threshold is at least two, and
-- fewer acknowledgements are counted than the window has frames.
pub run_window_bounded :
    (total_data_size : ℕ) (es : List WindowEvent)
    → 1 + length es < 2 ^ 32
    → (1 ≤ (run_window total_data_size es start_window).cwnd)
      × ((run_window total_data_size es start_window).cwnd ≤ 1 + length es)
      × (2 ≤ (run_window total_data_size es start_window).ssthresh)
      × ((run_window total_data_size es start_window).ack_count
          < (run_window total_data_size es start_window).cwnd)
run_window_bounded total es small = (g.some_frame, g.bounded, g.threshold, g.counted)
  where
    g : IsWindow (1 + length es) (run_window total es start_window)
    g = run-IsWindow total 1 es start_window small (record {
      some_frame = omega arith;
      bounded = omega arith;
      threshold = omega arith;
      counted = omega arith;
    })

-- Acknowledgements of packets of the data, `n` of them.
unfoldable pub grows : ℕ → Window → Window
grows zero w = w
grows (suc n) w = grows n (grow w)

grow_slow :
    (w : Window)
    → w.cwnd < w.ssthresh
    → ((grow w).cwnd ≡ w.cwnd + 1) × ((grow w).ssthresh ≡ w.ssthresh)
unfolding grow
grow_slow w h = ground arith

grow_counts :
    (w : Window)
    → w.ssthresh ≤ w.cwnd
    → w.cwnd < 2 ^ 32
    → w.ack_count + 1 < w.cwnd
    → ((grow w).cwnd ≡ w.cwnd)
      × ((grow w).ssthresh ≡ w.ssthresh)
      × ((grow w).ack_count ≡ w.ack_count + 1)
unfolding grow
grow_counts w h small below = ground arith

grow_full :
    (w : Window)
    → w.ssthresh ≤ w.cwnd
    → w.cwnd < 2 ^ 32
    → w.ack_count + 1 ≡ w.cwnd
    → ((grow w).cwnd ≡ w.cwnd + 1) × ((grow w).ack_count ≡ 0)
unfolding grow
grow_full w h small e = ground arith

-- Below the threshold the window grows by one frame with each acknowledgement.
pub grows-slow_start :
    (n : ℕ) (w : Window) → w.cwnd + n ≤ w.ssthresh → (grows n w).cwnd ≡ w.cwnd + n
unfolding grows
grows-slow_start zero w h = omega arith
grows-slow_start (suc n) w h =
    let (wider, same) = grow_slow w (omega arith) in
    grows-slow_start n (grow w) (omega (arith, wider, same)) ∙ omega (arith, wider)

-- From the threshold on, a window whose count is `n + 1` short of its size grows by one frame with
-- `n + 1` acknowledgements, and the count starts again.
pub grows-avoidance :
    (n : ℕ) (w : Window)
    → w.ssthresh ≤ w.cwnd
    → w.cwnd < 2 ^ 32
    → w.ack_count + suc n ≡ w.cwnd
    → ((grows (suc n) w).cwnd ≡ w.cwnd + 1) × ((grows (suc n) w).ack_count ≡ 0)
unfolding grows
grows-avoidance zero w h small e = grow_full w h small (omega arith)
grows-avoidance (suc n) w h small e =
    let (same, threshold, more) = grow_counts w h small (omega arith) in
    let (wider, again) =
      grows-avoidance n (grow w) (omega (arith, same, threshold)) (omega (arith, same))
        (omega (arith, same, more, e)) in
    (wider ∙ omega (arith, same), again)
