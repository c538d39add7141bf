-- ===== src/Gateway/Processing.antt =====
-- `CdsGatewayFilteringProcessingLoop`: the payloads go to the filter and, when it is done, on. A future is
-- its kind with, once it is ready, its value; which futures are ready is up to the filter's threads.
pub mod Lockstep
use cds_guard.Prelude.{
  ℕ, zero, suc, ◌+◌, ◌-◌, ◌≤◌, ◌<◌, ◌≡◌, Bool, true, false, not, ◌&&◌, Option, none, some, List, [],
  ◌∷◌, ◌++◌, Bytes, length, take, replicate, ltb, if◌then◌else◌,
}
use cds_guard.Gateway.FileSink.{Payload}

-- `std::variant<std::future<bool>, std::future<size_t>>`
pub data Future : Type 0 where
  string_future : Bool → Future
  document_future : Option ℕ → Future

-- A future that is not ready yet.
unfoldable pub enqueue : Payload → Future
enqueue p =
    if p.is_txt_file
    then string_future false
    else if p.is_file
    then document_future none
    else string_future false

-- A text file is passed on as a file.
unfoldable pub marked : Payload → Payload
marked p = if p.is_txt_file then record p { is_file = true } else p

-- `censor_task_list` and `censor_future_result_list`.
pub record Lists : Type 0 where
  pub tasks : List Payload
  pub futures : List Future

-- The loop over what the sessions have received.
unfoldable pub take_over : List Payload → Lists → Lists
take_over [] l = l
take_over (p ∷ received) l =
    take_over received
      (record { tasks = l.tasks ++ marked p ∷ []; futures = l.futures ++ enqueue p ∷ [] })

-- `std::vector::resize`
unfoldable pub resize : ℕ → Bytes → Bytes
resize n bytes = take n bytes ++ replicate (n - length bytes) 0

-- What is passed on when the future is ready; a size of 0 is a document that could not be censored.
unfoldable pub done_with : Payload → Future → Option Payload
done_with p (string_future false) = none
done_with p (string_future true) = some p
done_with p (document_future none) = none
done_with p (document_future (some size)) =
    some (if ltb 0 size then record p { content = resize size p.content } else p)

-- The two lists that a pass leaves, and what it gave to the callback, in order.
pub record Pass : Type 0 where
  pub left : Lists
  pub forwarded : List Payload

unfoldable pub pass_one : Option Payload → Payload → Future → Pass → Pass
pass_one none p f rest = record rest {
  left = record { tasks = p ∷ rest.left.tasks; futures = f ∷ rest.left.futures };
}
pass_one (some done) p f rest = record rest { forwarded = done ∷ rest.forwarded }

-- The loop over the tasks. `none` is an access to the end of the list of futures.
unfoldable pub pass : List Payload → List Future → Option Pass
pass [] futures = some (record { left = record { tasks = []; futures = futures }; forwarded = [] })
pass (p ∷ tasks) [] = none
pass (p ∷ tasks) (f ∷ futures) = elim (pass tasks futures) [
  | none ↦ none
  | some rest ↦ some (pass_one (done_with p f) p f rest)
]
