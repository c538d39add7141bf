-- ===== src/Filter/Censor.antt =====
-- `censor` on a text: each matched byte becomes a '*'. A write beyond the end, which C++ leaves undefined,
-- changes nothing here.
use cds_guard.Prelude.{
  ℕ, zero, suc, ◌+◌, ◌<◌, ◌≡◌, refl, ap, ◌∙◌, Bool, false, ◌&&◌, ◌||◌, List, [], ◌∷◌, Bytes, length,
  get_or, set, leb, ltb, ◌==◌, if◌then◌else◌, arith,
}
use cds_guard.Trie.Search.{MatchedInfo}

-- The inner loop, from `index` on.
unfoldable pub censor_range : ℕ → ℕ → Bytes → Bytes
censor_range zero index text = text
censor_range (suc size) index text = censor_range size (index + 1) (set text index b'*')

unfoldable pub censor : Bytes → List MatchedInfo → Bytes
censor text [] = text
censor text (m ∷ ms) = censor (censor_range m.size m.index text) ms

-- Whether a match covers place `i`.
unfoldable pub covered : List MatchedInfo → ℕ → Bool
covered [] i = false
covered (m ∷ ms) i = leb m.index i && ltb i (m.index + m.size) || covered ms i

length-set : (text : Bytes) (i v : ℕ) → length (set text i v) ≡ length text
length-set [] i v = refl
length-set (b ∷ text) zero v = refl
length-set (b ∷ text) (suc i) v = ap suc (length-set text i v)

get_or-set :
    (text : Bytes) (i k v : ℕ)
    → k < length text
    → get_or (set text i v) k 0 ≡ (if k == i then v else get_or text k 0)
get_or-set [] i k v h = elim h [ ]
get_or-set (b ∷ text) zero zero v h = refl
get_or-set (b ∷ text) zero (suc k) v h = ground arith
get_or-set (b ∷ text) (suc i) zero v h = ground arith
get_or-set (b ∷ text) (suc i) (suc k) v h = ground (arith, get_or-set text i k v)

length-censor_range :
    (size index : ℕ) (text : Bytes) → length (censor_range size index text) ≡ length text
unfolding censor_range
length-censor_range zero index text = refl
length-censor_range (suc size) index text =
    length-censor_range size (index + 1) (set text index b'*') ∙ length-set text index b'*'

get_or-censor_range :
    (size index k : ℕ) (text : Bytes)
    → k < length text
    → get_or (censor_range size index text) k 0
      ≡ (if leb index k && ltb k (index + size) then b'*' else get_or text k 0)
unfolding censor_range
get_or-censor_range zero index k text h = ground arith
get_or-censor_range (suc size) index k text h = ground (
  arith,
  get_or-censor_range size (index + 1) k (set text index b'*'),
  length-set text index b'*',
  get_or-set text index k b'*',
)

pub length-censor : (text : Bytes) (ms : List MatchedInfo) → length (censor text ms) ≡ length text
unfolding censor
length-censor text [] = refl
length-censor text (m ∷ ms) =
    length-censor (censor_range m.size m.index text) ms ∙ length-censor_range m.size m.index text

get_or-censor :
    (text : Bytes) (ms : List MatchedInfo) (k : ℕ)
    → k < length text
    → get_or (censor text ms) k 0 ≡ (if covered ms k then b'*' else get_or text k 0)
unfolding censor covered
get_or-censor text [] k h = refl
get_or-censor text (m ∷ ms) k h = ground (
  arith,
  get_or-censor (censor_range m.size m.index text) ms k,
  length-censor_range m.size m.index text,
  get_or-censor_range m.size m.index k text h,
)

-- A censored text has the length it had, each place that a match covers holds a '*', and every other place
-- what it held.
pub censor-covered :
    (text : Bytes) (ms : List MatchedInfo)
    → (length (censor text ms) ≡ length text)
      × ((k : ℕ)
          → k < length text
          → get_or (censor text ms) k 0 ≡ (if covered ms k then b'*' else get_or text k 0))
censor-covered text ms = (length-censor text ms, λ k h. get_or-censor text ms k h)
