-- ===== src/GuardL2/Sender/Window.antt =====
-- `on_ack_received`, `on_packet_loss` and the windows that `send_reliable_data` starts with. The
-- `double` `cwnd_` is set to 1.0 and raised by 1.0 only, so it is a natural number.
pub mod Growth
use Prim.Native.Nat.{max}
use cds_guard.Prelude.{
  ℕ, ◌+◌, ◌-◌, ◌/◌, Bool, ◌||◌, List, [], ◌∷◌, u32, u64, ltb, leb, ◌==◌, if◌then◌else◌,
}

pub record Window : Type 0 where
  pub cwnd : ℕ
  pub ssthresh : ℕ
  pub ack_count : ℕ
  pub rwnd : ℕ

abbrev pub initial_window_size : ℕ
initial_window_size = 64

abbrev pub start_window : Window
start_window = record {
  cwnd = 1;
  ssthresh = initial_window_size;
  ack_count = 0;
  rwnd = initial_window_size;
}

-- The acknowledgement of START or of END.
abbrev pub is_handshake : ℕ → ℕ → Bool
is_handshake total_data_size ack_seq =
    ack_seq == 0 || ltb (u64 (total_data_size + 1400 - 1) / 1400) ack_seq

-- The part under `cwnd_mutex_`, for the acknowledgement of a packet of the data.
unfoldable pub grow : Window → Window
grow w =
    let counted = u32 (w.ack_count + 1) in
    if ltb w.cwnd w.ssthresh
    then record w { cwnd = w.cwnd + 1 }
    else if leb (u32 w.cwnd) counted
    then record w { cwnd = w.cwnd + 1; ack_count = 0 }
    else record w { ack_count = counted }

unfoldable pub on_ack_received : ℕ → ℕ → ℕ → Window → Window
on_ack_received total_data_size ack_seq advertised_window w =
    let opened = record w { rwnd = advertised_window } in
    if is_handshake total_data_size ack_seq then opened else grow opened

unfoldable pub on_packet_loss : Window → Window
on_packet_loss w = record w { ssthresh = max 2 (u32 (w.cwnd / 2)); cwnd = 1; ack_count = 0 }

-- What happens to the windows in a transfer.
pub data WindowEvent : Type 0 where
  acked : ℕ → ℕ → WindowEvent
  lost : WindowEvent

unfoldable pub run_window : ℕ → List WindowEvent → Window → Window
run_window total_data_size [] w = w
run_window total_data_size (acked ack_seq advertised ∷ es) w =
    run_window total_data_size es (on_ack_received total_data_size ack_seq advertised w)
run_window total_data_size (lost ∷ es) w = run_window total_data_size es (on_packet_loss w)
