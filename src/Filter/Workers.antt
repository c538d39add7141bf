-- ===== src/Filter/Workers.antt =====
-- `worker_loop`: which queue a worker takes its next task from, and what it does with a text. The queues
-- are shared under a mutex, so that a turn begins with the queues as other threads have left them.
pub mod Fairness
use cds_guard.Prelude.{
  ℕ, zero, suc, ◌+◌, ◌≤◌, ◌<◌, ◌≡◌, Bool, true, false, not, ◌&&◌, ◌||◌, Option, none, some, List,
  [], ◌∷◌, ◌++◌, Bytes, ltb, if◌then◌else◌,
}
use cds_guard.Trie.Search.{MatchedInfo}
use cds_guard.Filter.Censor.{censor}

-- The two queues, front first, of a text task and an image task each of which has its place in the data of
-- its sender.
pub record Queues : Type 0 where
  pub string_tasks : List Bytes
  pub image_tasks : List Bytes

pub data Task : Type 0 where
  string_task : Bytes → Task
  image_task : Bytes → Task

unfoldable pub is_nil : List Bytes → Bool
is_nil [] = true
is_nil (x ∷ xs) = false

unfoldable pub take_string : ℕ → Queues → Option (Task × Queues × ℕ)
take_string count q = elim (q.string_tasks) [
  | [] ↦ none
  | t ∷ rest ↦ some (string_task t, record q { string_tasks = rest }, count + 1)
]

unfoldable pub take_image : ℕ → Queues → Option (Task × Queues × ℕ)
take_image count q = elim (q.image_tasks) [
  | [] ↦ none
  | t ∷ rest ↦ some (image_task t, record q { image_tasks = rest }, 0)
]

-- The task of a turn, the queues without it and the new `string_task_count`; `none` where the worker waits.
unfoldable pub pick : ℕ → Queues → Option (Task × Queues × ℕ)
pick count q =
    if not (is_nil q.string_tasks) && (ltb count 10 || is_nil q.image_tasks)
    then take_string count q
    else take_image count q

-- What a text task leaves behind: the text and the value of its promise, or the end of the program.
pub data TaskResult : Type 0 where
  finished : Bytes → Bool → TaskResult
  terminated : TaskResult

-- The matches of the rules, then, if it is enabled, those of the deep-learning server; `none` is an
-- exception.
unfoldable pub all_matches :
    Bool → Option (List MatchedInfo) → Option (List MatchedInfo) → Option (List MatchedInfo)
all_matches deep_learning none by_dl = none
all_matches deep_learning (some by_rule) none = if deep_learning then none else some by_rule
all_matches deep_learning (some by_rule) (some by_dl) =
    if deep_learning then some (by_rule ++ by_dl) else some by_rule

unfoldable pub is_censored : List MatchedInfo → Bool
is_censored [] = false
is_censored (m ∷ ms) = true

-- After an exception the promise has one already when `set_value` is called on it, outside the `try`.
unfoldable pub run_string :
    Bool → Option (List MatchedInfo) → Option (List MatchedInfo) → Bytes → TaskResult
run_string deep_learning by_rule by_dl text = elim (all_matches deep_learning by_rule by_dl) [
  | none ↦ terminated
  | some ms ↦ finished (if is_censored ms then censor text ms else text) (is_censored ms)
]
