-- ===== src/Filter/CharPlaces.antt =====
-- The conversion of the places that the deep-learning server counts in characters to places in bytes.
use cds_guard.Prelude.{
  ℕ, zero, suc, ◌+◌, ◌-◌, ◌^◌, ◌≤◌, ◌<◌, ◌≡◌, refl, ap, inl, inr, Bool-cases, Option, none, some,
  List, [], ◌∷◌, Bytes, length, get_elem?, u64, ltb, if◌then◌else◌, All, arith,
}
use cds_guard.Aria.Block.{at}
use cds_guard.Trie.Utf8.{get_utf8_char_length}
use cds_guard.Trie.Search.{MatchedInfo}
use cds_guard.Trie.Search.Bounds.{IsInside}

-- `build_char_to_byte_map`: the place in bytes of each character, and at the end the size of the text. A
-- byte that begins no character makes the loop stand still; here `fuel` ends it.
unfoldable pub build_char_to_byte_map : ℕ → Bytes → ℕ → List ℕ
build_char_to_byte_map zero text i = []
build_char_to_byte_map (suc fuel) text i =
    let rest = build_char_to_byte_map fuel text (i + get_utf8_char_length (at text i)) in
    if ltb i (length text) then i ∷ rest else length text ∷ []

-- The body of the loop over the results, with what the two lookups give.
unfoldable pub add_result : Option ℕ → Option ℕ → List MatchedInfo → List MatchedInfo
add_result (some byte_start) (some byte_end) rest =
    record { index = byte_start; size = u64 (byte_end + 2 ^ 64 - byte_start) } ∷ rest
add_result (some byte_start) none rest = rest
add_result none byte_end rest = rest

unfoldable pub convert_loop : List ℕ → List MatchedInfo → List MatchedInfo
convert_loop char_map [] = []
convert_loop char_map (m ∷ ms) =
    add_result (get_elem? char_map m.index) (get_elem? char_map (m.index + m.size))
      (convert_loop char_map ms)

unfoldable pub convert_char_to_byte_indices : Bytes → List MatchedInfo → List MatchedInfo
convert_char_to_byte_indices text ms =
    convert_loop (build_char_to_byte_map (suc (length text)) text 0) ms

-- The entries rise from `low` and end at `high` or before.
abbrev Rises : ℕ → ℕ → List ℕ → Type 0
Rises low high [] = Unit {0}
Rises low high (i ∷ rest) = (low ≤ i) × (i ≤ high) × Rises i high rest

Rises-le : (low low' high : ℕ) (xs : List ℕ) → low' ≤ low → Rises low high xs → Rises low' high xs
Rises-le low low' high [] h r = tt
Rises-le low low' high (x ∷ xs) h r = (omega arith, r.1, r.2)

build_char_to_byte_map-Rises :
    (fuel : ℕ) (text : Bytes) (i low : ℕ)
    → low ≤ i
    → low ≤ length text
    → Rises low (length text) (build_char_to_byte_map fuel text i)
unfolding build_char_to_byte_map
build_char_to_byte_map-Rises zero text i low h k = tt
build_char_to_byte_map-Rises (suc fuel) text i low h k = elim (Bool-cases (ltb i (length text))) [
  | inl more ↦ rw more (
    h,
    ground arith,
    build_char_to_byte_map-Rises fuel text (i + get_utf8_char_length (at text i)) i (omega arith)
        (ground arith),
  )
  | inr done ↦ rw done (k, omega arith, tt)
]

Rises-entry :
    (low high : ℕ) (xs : List ℕ) (n x : ℕ)
    → Rises low high xs
    → get_elem? xs n ≡ some x
    → (low ≤ x) × (x ≤ high)
Rises-entry low high [] n x r e = absurd (cc)
Rises-entry low high (y ∷ xs) zero x r e = ground arith
Rises-entry low high (y ∷ xs) (suc n) x r e = omega (arith, r.0, Rises-entry y high xs n x r.2 e)

Rises-later :
    (low high : ℕ) (xs : List ℕ) (m n x y : ℕ)
    → Rises low high xs
    → m ≤ n
    → get_elem? xs m ≡ some x
    → get_elem? xs n ≡ some y
    → x ≤ y
Rises-later low high [] m n x y r h e f = absurd (cc)
Rises-later low high (z ∷ xs) zero zero x y r h e f = ground arith
Rises-later low high (z ∷ xs) zero (suc n) x y r h e f =
    ground (arith, Rises-entry z high xs n y r.2 f)
Rises-later low high (z ∷ xs) (suc m) zero x y r h e f = elim h [ ]
Rises-later low high (z ∷ xs) (suc m) (suc n) x y r h e f =
    Rises-later z high xs m n x y r.2 (omega arith) e f

add_result-IsInside :
    (bound : ℕ) (a b : Option ℕ) (rest : List MatchedInfo)
    → bound < 2 ^ 64
    → ((x : ℕ) (y : ℕ) → a ≡ some x → b ≡ some y → (x ≤ y) × (y ≤ bound))
    → All (IsInside bound) rest
    → All (IsInside bound) (add_result a b rest)
unfolding add_result
add_result-IsInside bound (some x) (some y) rest small h r = (omega (arith, h x y refl refl), r)
add_result-IsInside bound (some x) none rest small h r = r
add_result-IsInside bound none (some y) rest small h r = r
add_result-IsInside bound none none rest small h r = r

convert_loop-IsInside :
    (bound : ℕ) (char_map : List ℕ) (ms : List MatchedInfo)
    → bound < 2 ^ 64
    → Rises 0 bound char_map
    → All (IsInside bound) (convert_loop char_map ms)
unfolding convert_loop
convert_loop-IsInside bound char_map [] small r = tt
convert_loop-IsInside bound char_map (m ∷ ms) small r =
    add_result-IsInside bound (get_elem? char_map m.index) (get_elem? char_map (m.index + m.size)) _
      small
      (λ x y e f. (
        Rises-later 0 bound char_map m.index (m.index + m.size) x y r (omega arith) e f,
        (Rises-entry 0 bound char_map (m.index + m.size) y r f).1,
      ))
      (convert_loop-IsInside bound char_map ms small r)

-- Whatever the server answers, what is made of it lies inside the text.
pub convert-IsInside :
    (text : Bytes) (ms : List MatchedInfo)
    → length text < 2 ^ 64
    → All (IsInside (length text)) (convert_char_to_byte_indices text ms)
unfolding convert_char_to_byte_indices
convert-IsInside text ms small =
    convert_loop-IsInside (length text) (build_char_to_byte_map (suc (length text)) text 0) ms small
      (build_char_to_byte_map-Rises (suc (length text)) text 0 0 (omega arith) (omega arith))

-- Where every byte that is looked at begins a character, the loop ends before its turns are used up.
pub build_char_to_byte_map_enough :
    (m n : ℕ) (text : Bytes) (i : ℕ)
    → ((k : ℕ) → 1 ≤ get_utf8_char_length (at text k))
    → length text ≤ i + m
    → length text ≤ i + n
    → build_char_to_byte_map (suc m) text i ≡ build_char_to_byte_map (suc n) text i
unfolding build_char_to_byte_map
build_char_to_byte_map_enough zero zero text i valid h k = refl
build_char_to_byte_map_enough zero (suc n) text i valid h k = ground arith
build_char_to_byte_map_enough (suc m) zero text i valid h k = ground arith
build_char_to_byte_map_enough (suc m) (suc n) text i valid h k =
    ap (λ rest. if ltb i (length text) then i ∷ rest else length text ∷ [])
      (build_char_to_byte_map_enough m n text (i + get_utf8_char_length (at text i)) valid
        (omega (arith, valid i)) (omega (arith, valid i)))
