-- ===== src/Gateway/Processing/Lockstep.antt =====
-- The list of tasks and the list of futures stay in step, and every payload is passed on once.
use cds_guard.Prelude.{
  ℕ, zero, suc, ◌+◌, ◌≡◌, Bytes, Bool, true, false, not, ◌&&◌, ◌||◌, none, some, List, [], ◌∷◌,
  ◌++◌, length, length-append, if◌then◌else◌, arith,
}
use cds_guard.Gateway.FileSink.{Payload}
use cds_guard.Gateway.Processing.{
  Future, string_future, document_future, enqueue, marked, Lists, take_over, Pass,
}

-- The future is of the kind that the payload needs: only a file that is no text file is a document.
unfoldable pub suits : Payload → Future → Bool
suits p (string_future ready) = p.is_txt_file || not p.is_file
suits p (document_future size) = p.is_file && not p.is_txt_file

abbrev pub IsLockstep : List Payload → List Future → Type 0
IsLockstep [] [] = Unit {0}
IsLockstep [] (f ∷ fs) = ⊥
IsLockstep (p ∷ ps) [] = ⊥
IsLockstep (p ∷ ps) (f ∷ fs) = (suits p f ≡ true) × IsLockstep ps fs

unfoldable pub is_ready : Future → Bool
is_ready (string_future ready) = ready
is_ready (document_future none) = false
is_ready (document_future (some size)) = true

-- How many of the futures are not ready.
unfoldable pub waiting : List Future → ℕ
waiting [] = 0
waiting (f ∷ fs) = if is_ready f then waiting fs else waiting fs + 1

IsLockstep-append :
    (ps : List Payload) (fs : List Future) (p : Payload) (f : Future)
    → IsLockstep ps fs
    → suits p f ≡ true
    → IsLockstep (ps ++ p ∷ []) (fs ++ f ∷ [])
IsLockstep-append [] [] p f h s = (s, tt)
IsLockstep-append [] (g ∷ fs) p f h s = absurd h
IsLockstep-append (q ∷ ps) [] p f h s = absurd h
IsLockstep-append (q ∷ ps) (g ∷ fs) p f h s = (h.0, IsLockstep-append ps fs p f h.1 s)

suits-enqueue : (p : Payload) → suits (marked p) (enqueue p) ≡ true
unfolding suits marked enqueue
suits-enqueue p = ground arith

pub take_over-IsLockstep :
    (received : List Payload) (l : Lists)
    → IsLockstep l.tasks l.futures
    → IsLockstep (take_over received l).tasks (take_over received l).futures
unfolding take_over
take_over-IsLockstep [] l h = h
take_over-IsLockstep (p ∷ received) l h =
    take_over-IsLockstep received _
      (IsLockstep-append l.tasks l.futures (marked p) (enqueue p) h (suits-enqueue p))

pub length-take_over :
    (received : List Payload) (l : Lists)
    → length (take_over received l).tasks ≡ length l.tasks + length received
unfolding take_over
length-take_over [] l = omega arith
length-take_over (p ∷ received) l = omega (
  arith,
  length-append l.tasks (marked p ∷ []),
  length-take_over received
      (record { tasks = l.tasks ++ marked p ∷ []; futures = l.futures ++ enqueue p ∷ [] }),
)

-- What a censored document of `n` bytes holds: the first `n` of the payload's, with zeros behind them if
-- these are fewer.
abbrev first_bytes : ℕ → Bytes → Bytes
first_bytes zero content = []
first_bytes (suc n) [] = 0 ∷ first_bytes n []
first_bytes (suc n) (b ∷ content) = b ∷ first_bytes n content

-- The contents with which a payload is passed on: those it has, or for a document that could be censored
-- as many bytes as its future says.
abbrev pub passed_content : Future → Bytes → Bytes
passed_content (string_future ready) content = content
passed_content (document_future none) content = content
passed_content (document_future (some zero)) content = content
passed_content (document_future (some (suc n))) content = first_bytes (suc n) content

-- The payloads whose futures are ready, in order, with the contents they are passed on with.
abbrev pub finished : List Payload → List Future → List Payload
finished [] futures = []
finished (p ∷ tasks) [] = []
finished (p ∷ tasks) (f ∷ futures) =
    if is_ready f
    then record p { content = passed_content f p.content } ∷ finished tasks futures
    else finished tasks futures

-- The payloads whose futures are not ready, and these futures.
abbrev pub unfinished : List Payload → List Future → List Payload
unfinished [] futures = []
unfinished (p ∷ tasks) [] = []
unfinished (p ∷ tasks) (f ∷ futures) =
    if is_ready f then unfinished tasks futures else p ∷ unfinished tasks futures

abbrev pub not_ready : List Future → List Future
not_ready [] = []
not_ready (f ∷ futures) = if is_ready f then not_ready futures else f ∷ not_ready futures

-- What a pass over lists in step leaves and passes on.
pub record Passed (tasks : List Payload) (futures : List Future) (r : Pass) : Type 0 where
  pub lockstep : IsLockstep r.left.tasks r.left.futures
  pub passed_on : r.forwarded ≡ finished tasks futures
  pub tasks_left : r.left.tasks ≡ unfinished tasks futures
  pub futures_left : r.left.futures ≡ not_ready futures
  pub none_lost : length r.forwarded + length r.left.tasks ≡ length tasks
  pub only_waiting : length r.left.tasks ≡ waiting futures
