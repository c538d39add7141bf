-- ===== src/GuardL2/Transfer/Invariant/Moves.antt =====
-- An acknowledgement, the waiting in a handshake and a new packet keep the invariant.
use cds_guard.Prelude.{
  ℕ, ◌+◌, ◌≡◌, refl, true, false, Option, none, some, Bytes, length, ◌==◌, if-elim,
}
use cds_guard.GuardL2.Frame.{Mac}
use cds_guard.GuardL2.Transfer.{
  SentPacketInfo, SendBuffer, put_info, Phase, finished, Sender, take_ack, on_parsed_ack, begin,
  handshake,
}
use cds_guard.GuardL2.Transfer.Invariant.{
  IsThere, IsFrameAt, IsInfo, Knows, IsSender, put_info-IsBuffer, put_info-Knows,
}

module _ (src dst : Mac) (sid : ℕ) (bytes : Bytes) (P : ℕ → Type 0) where
  abbrev Is : Sender → Type 0
  Is = IsSender src dst sid bytes P

  abbrev At : SendBuffer → Phase → Type 0
  At = Knows src dst sid bytes P

  -- Only the place changes.
  pub move :
      (st : Sender) (phase : Phase)
      → At st.send_buffer phase
      → Is st
      → Is (record st { phase = phase })
  move st phase k v = record {
    buffered = v.buffered;
    below = v.below;
    first = v.first;
    sent_only = v.sent_only;
    known = k;
  }

  take_ack-IsSender :
      (now seq advertised : ℕ) (o : Option SentPacketInfo) (st : Sender)
      → P seq
      → IsInfo src dst sid bytes P seq o
      → Is st
      → Is (take_ack (length bytes) now seq advertised o st)
  unfolding take_ack
  take_ack-IsSender now seq advertised none st p h v = v
  take_ack-IsSender now seq advertised (some info) st p h v =
      let taken : SentPacketInfo = record info { acked = true } in
      if-elim Is info.acked (λ t. v)
        (λ f. record {
          buffered =
              put_info-IsBuffer src dst sid bytes P seq (some taken) st.send_buffer (h.0, λ a. p)
                v.buffered;
          below = v.below;
          first = v.first;
          sent_only = v.sent_only;
          known = put_info-Knows src dst sid bytes P seq taken st.send_buffer st.phase v.known;
        })

  pub on_parsed_ack-IsSender :
      (now : ℕ) (o : Option (ℕ × ℕ)) (st : Sender)
      → ((seq advertised : ℕ) → o ≡ some (seq, advertised) → P seq)
      → Is st
      → Is (on_parsed_ack (length bytes) now o st)
  on_parsed_ack-IsSender now none st p v = v
  on_parsed_ack-IsSender now (some (seq, advertised)) st p v =
      take_ack-IsSender now seq advertised (st.send_buffer seq) st (p seq advertised refl)
        (v.buffered seq) v

  pub handshake-IsSender :
      (o : Option SentPacketInfo) (k : ℕ) (success : Phase) (again : ℕ → Phase) (tries : ℕ)
      (st : Sender)
      → IsThere o
      → IsInfo src dst sid bytes P k o
      → (P k → At st.send_buffer success)
      → At st.send_buffer (again (tries + 1))
      → Is st
      → Is (handshake o success again tries st)
  unfolding handshake
  handshake-IsSender none k success again tries st t h done more v = absurd t
  handshake-IsSender (some info) k success again tries st t h done more v =
      if-elim Is info.acked (λ a. move st success (done (h.1 a)) v)
        (λ f.
          if-elim Is (tries == 5) (λ g. move st (finished false) tt v)
            (λ g. record {
              buffered = v.buffered;
              below = v.below;
              first = v.first;
              sent_only = ((h.0.0, h.0.1, h.0.2), v.sent_only);
              known = more;
            }))

  pub begin-IsSender :
      (seq now : ℕ) (frame : Bytes) (phase : Phase) (st : Sender)
      → IsFrameAt src dst sid bytes seq frame
      → ((info : SentPacketInfo) → At (put_info seq (some info) st.send_buffer) phase)
      → Is st
      → Is (begin seq now frame phase st)
  unfolding begin
  begin-IsSender seq now frame phase st f k v =
      let info : SentPacketInfo = record { frame_data = frame; time_sent = now; acked = false } in
      record {
        buffered =
            put_info-IsBuffer src dst sid bytes P seq (some info) st.send_buffer (f, λ a. cc a)
              v.buffered;
        below = v.below;
        first = v.first;
        sent_only = ((f.0, f.1, f.2), v.sent_only);
        known = k info;
      }
