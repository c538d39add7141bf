-- ===== src/Gateway/FileSink/Sessions.antt =====
-- The connections that the gateway counts, from their acceptance to the end of their sessions.
use cds_guard.Prelude.{
  ℕ, ◌+◌, ◌-◌, ◌<◌, ◌≤◌, ◌≡◌, ◌⊎◌, inl, inr, ap, ◌∙◌, Bool, ◌||◌, List, [], ◌∷◌, Bytes, All, length,
  length-append, min, leb, if◌then◌else◌, arith,
}
use cds_guard.Gateway.FileSink.{
  Reading, complete, failed, bad_magic, bad_tag, Gateway, end_session, decrement, file_sink_session,
  read_session, max_tasks,
}

abbrev pub max_connections : ℕ
max_connections = 4

-- The test of `CdsGatewayConnectionAcceptLoop`.
unfoldable pub is_full : Gateway → Bool
is_full g = leb max_connections g.active_connections || leb max_tasks (length g.receive_task_list)

unfoldable pub accept : Gateway → Gateway
accept g = if is_full g then g else record g { active_connections = g.active_connections + 1 }

-- What happens to the two counts: a connection comes, or a session ends that delivered these bytes.
pub data SinkEvent : Type 0 where
  connects : SinkEvent
  ends : Bytes → SinkEvent

unfoldable pub run_sink : List SinkEvent → Gateway → Gateway
run_sink [] g = g
run_sink (connects ∷ es) g = run_sink es (accept g)
run_sink (ends stream ∷ es) g = run_sink es (file_sink_session stream g)

-- Of the sessions that were accepted, `live` have not ended. Only one of these ends.
abbrev pub IsHistory : List SinkEvent → Gateway → ℕ → Type 0
IsHistory [] g live = Unit {0}
IsHistory (connects ∷ es) g live = IsHistory es (accept g) (if is_full g then live else live + 1)
IsHistory (ends stream ∷ es) g live =
    (1 ≤ live) × IsHistory es (file_sink_session stream g) (live - 1)

accept_bounded :
    (g : Gateway) (live : ℕ)
    → length g.receive_task_list ≤ max_tasks
    → g.active_connections ≤ max_connections
    → live ≤ g.active_connections
    → (length (accept g).receive_task_list ≤ max_tasks)
      × ((accept g).active_connections ≤ max_connections)
      × ((if is_full g then live else live + 1) ≤ (accept g).active_connections)
unfolding accept is_full
accept_bounded g live tasks active counted = ground arith

end_session_bounded :
    (r : Reading) (g : Gateway) (live : ℕ)
    → length g.receive_task_list ≤ max_tasks
    → g.active_connections ≤ max_connections
    → live ≤ g.active_connections
    → 1 ≤ live
    → (length (end_session r g).receive_task_list ≤ max_tasks)
      × ((end_session r g).active_connections ≤ max_connections)
      × (live - 1 ≤ (end_session r g).active_connections)
unfolding end_session decrement
end_session_bounded bad_magic g live tasks active counted some_live = (tasks, active, omega arith)
end_session_bounded bad_tag g live tasks active counted some_live = (tasks, active, omega arith)
end_session_bounded failed g live tasks active counted some_live =
    (tasks, ground arith, ground arith)
end_session_bounded (complete p) g live tasks active counted some_live =
    (ground (arith, length-append g.receive_task_list (p ∷ [])), ground arith, ground arith)

-- Over any history of connections and of ends of sessions that were accepted and had not ended, the gateway
-- never holds more than 16 tasks nor counts more than 4 connections, if it did not before and then counted
-- at least the sessions that had not ended.
pub run_sink_bounded :
    (es : List SinkEvent) (g : Gateway) (live : ℕ)
    → length g.receive_task_list ≤ max_tasks
    → g.active_connections ≤ max_connections
    → live ≤ g.active_connections
    → IsHistory es g live
    → (length (run_sink es g).receive_task_list ≤ max_tasks)
      × ((run_sink es g).active_connections ≤ max_connections)
unfolding run_sink file_sink_session
run_sink_bounded [] g live tasks active counted h = (tasks, active)
run_sink_bounded (connects ∷ es) g live tasks active counted h =
    let b = accept_bounded g live tasks active counted in
    run_sink_bounded es (accept g) (if is_full g then live else live + 1) b.0 b.1 b.2 h
run_sink_bounded (ends stream ∷ es) g live tasks active counted h =
    let b = end_session_bounded (read_session stream) g live tasks active counted h.0 in
    run_sink_bounded es (end_session (read_session stream) g) (live - 1) b.0 b.1 b.2 h.1

abbrev pub IsRejected : Bytes → Type 0
IsRejected stream = (read_session stream ≡ bad_magic) ⊎ (read_session stream ≡ bad_tag)

-- Each client connects and its session ends before the next one comes.
abbrev pub one_by_one : List Bytes → List SinkEvent
one_by_one [] = []
one_by_one (stream ∷ more) = connects ∷ ends stream ∷ one_by_one more

rejected_keeps : (stream : Bytes) (g : Gateway) → IsRejected stream → file_sink_session stream g ≡ g
unfolding file_sink_session end_session
rejected_keeps stream g (inl e) = ap (λ (r : Reading). end_session r g) e
rejected_keeps stream g (inr e) = ap (λ (r : Reading). end_session r g) e

-- Clients that are rejected for a wrong magic number or tag, one after the other, use up the
-- connections for good: with room for tasks, and at most 4 connections counted, the count afterwards
-- is that of before and one more for each client, up to 4.
pub run_sink-IsRejected :
    (streams : List Bytes) (g : Gateway)
    → All (λ (s : Bytes). (read_session s ≡ bad_magic) ⊎ (read_session s ≡ bad_tag)) streams
    → length g.receive_task_list < max_tasks
    → g.active_connections ≤ max_connections
    → (run_sink (one_by_one streams) g).active_connections
      ≡ min max_connections (g.active_connections + length streams)
unfolding run_sink accept is_full
run_sink-IsRejected [] g h tasks active = omega arith
run_sink-IsRejected (stream ∷ more) g h tasks active =
    ap (λ (n : Gateway). (run_sink (one_by_one more) n).active_connections)
      (rejected_keeps stream (accept g) h.0)
    ∙ run_sink-IsRejected more (accept g) h.1 (ground arith) (ground arith)
    ∙ ground arith
