-- ===== src/Filter/Workers/Fairness.antt =====
-- An image does not wait behind the texts for ever.
use cds_guard.Prelude.{
  ℕ, ◌+◌, ◌<◌, ◌≡◌, refl, inl, inr, Bool, true, false, Bool-cases, Option, none, some, List, [],
  ◌∷◌, Bytes, length, ltb, All, arith,
}
use cds_guard.Filter.Workers.{
  Queues, Task, string_task, image_task, is_nil, take_string, take_image, pick,
}

-- The turns of one worker, each on the queues as it finds them.
unfoldable pub turns : ℕ → List Queues → List Task
turns count [] = []
turns count (q ∷ qs) = elim (pick count q) [
  | none ↦ turns count qs
  | some (t, q', count') ↦ t ∷ turns count' qs
]

unfoldable pub has_image : List Task → Bool
has_image [] = false
has_image (string_task t ∷ ts) = has_image ts
has_image (image_task t ∷ ts) = true

-- What a turn does while an image waits.
abbrev Advances : ℕ → Option (Task × Queues × ℕ) → Type 0
Advances count none = ⊥
Advances count (some (string_task t, q, count')) = (count < 10) × (count' ≡ count + 1)
Advances count (some (image_task t, q, count')) = count' ≡ 0

advances :
    (count : ℕ) (ss is : List Bytes)
    → is_nil is ≡ false
    → Advances count (pick count (record { string_tasks = ss; image_tasks = is }))
unfolding pick is_nil take_string take_image
advances count ss [] waits = absurd (cc)
advances count [] (i ∷ is) waits = refl
advances count (s ∷ ss) (i ∷ is) waits = elim (Bool-cases (ltb count 10)) [
  | inl few ↦ rw few (ground arith, refl)
  | inr many ↦ rw many refl
]

pick-Advances :
    (count : ℕ) (q : Queues) → is_nil q.image_tasks ≡ false → Advances count (pick count q)
pick-Advances count q waits = advances count q.string_tasks q.image_tasks waits

-- The image waits at every turn.
abbrev pub Waits : List Queues → Type 0
Waits = All (λ q. is_nil q.image_tasks ≡ false)

has_image_after :
    (count : ℕ) (qs : List Queues)
    → Waits qs
    → 10 < count + length qs
    → 0 < length qs
    → has_image (turns count qs) ≡ true
unfolding turns has_image
has_image_after count [] waits h k = elim k [ ]
has_image_after count (q ∷ qs) waits h k =
    elim (pick count q)
        as (λ o.
          Advances count o
          → has_image
              (elim o [ none ↦ turns count qs | some (t, q', count') ↦ t ∷ turns count' qs ])
            ≡ true) [
              | none ↦ λ a. absurd a
              | some (string_task t, q', count') ↦
                  λ a. has_image_after count' qs waits.1 (omega (arith, a)) (omega (arith, a))
              | some (image_task t, q', count') ↦ λ a. refl
            ]
      (pick-Advances count q waits.0)

-- Of eleven turns of a worker at each of which an image waits one takes an image, whatever texts come in
-- between and however many texts the worker has taken before.
pub turns-has_image :
    (count : ℕ) (qs : List Queues) → Waits qs → length qs ≡ 11 → has_image (turns count qs) ≡ true
turns-has_image count qs waits h = has_image_after count qs waits (omega arith) (omega arith)
