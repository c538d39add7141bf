-- ===== src/GuardL2/Wire.antt =====
-- Byte order: the values that a little-endian host stores, and `htonll` and `ntohll` of GuardL2.cpp.
-- `htons` and `htonl` are POSIX's, which reverse the bytes on such a host.
use cds_guard.Prelude.{
  ℕ, ◌+◌, ◌*◌, ◌/◌, ◌%◌, ◌^◌, ◌<◌, ◌≡◌, ap₂, ◌∙◌, bit_or, [], ◌∷◌, Bytes, arith, ◌<<<◌, ◌>>>◌,
}
use cds_guard.Prelude.Or.{or_fields}
use cds_guard.Aria.Block.{at}

abbrev pub store16 : ℕ → Bytes
store16 v = v % 256 ∷ v / 256 % 256 ∷ []

abbrev pub store32 : ℕ → Bytes
store32 v = v % 256 ∷ v / 2 ^ 8 % 256 ∷ v / 2 ^ 16 % 256 ∷ v / 2 ^ 24 % 256 ∷ []

abbrev pub store64 : ℕ → Bytes
store64 v =
    v % 256
    ∷ v / 2 ^ 8 % 256
    ∷ v / 2 ^ 16 % 256
    ∷ v / 2 ^ 24 % 256
    ∷ v / 2 ^ 32 % 256
    ∷ v / 2 ^ 40 % 256
    ∷ v / 2 ^ 48 % 256
    ∷ v / 2 ^ 56 % 256
    ∷ []

abbrev pub load16 : Bytes → ℕ → ℕ
load16 b o = at b o + 2 ^ 8 * at b (o + 1)

abbrev pub load32 : Bytes → ℕ → ℕ
load32 b o = load16 b o + 2 ^ 16 * load16 b (o + 2)

abbrev pub load64 : Bytes → ℕ → ℕ
load64 b o = load32 b o + 2 ^ 32 * load32 b (o + 4)

unfoldable pub htons : ℕ → ℕ
htons x = x % 256 * 2 ^ 8 + x / 2 ^ 8 % 256

unfoldable pub htonl : ℕ → ℕ
htonl x = x % 256 * 2 ^ 24 + x / 2 ^ 8 % 256 * 2 ^ 16 + x / 2 ^ 16 % 256 * 2 ^ 8 + x / 2 ^ 24 % 256

unfoldable pub htonll : ℕ → ℕ
unfolding htonl
htonll x = bit_or (htonl (x % 2 ^ 32) <<< 32) (htonl (x >>> 32))

-- On this host `ntohll` is the same function.
unfoldable pub ntohll : ℕ → ℕ
unfolding htonl
ntohll x = bit_or (htonl (x % 2 ^ 32) <<< 32) (htonl (x >>> 32))

pub ntohs-htons : (x : ℕ) → x < 2 ^ 16 → htons (htons x) ≡ x
unfolding htons
ntohs-htons x h = omega arith

pub htons-lt : (x : ℕ) → htons x < 2 ^ 16
unfolding htons
htons-lt x = omega arith

pub htonl-lt : (x : ℕ) → htonl x < 2 ^ 32
unfolding htonl
htonl-lt x = omega arith

pub ntohl-htonl : (x : ℕ) → x < 2 ^ 32 → htonl (htonl x) ≡ x
unfolding htonl
ntohl-htonl x h = omega arith

htonll_parts : (x : ℕ) → htonll x ≡ htonl (x % 2 ^ 32) * 2 ^ 32 + htonl (x / 2 ^ 32)
unfolding htonll
htonll_parts x = or_fields 32 (htonl (x % 2 ^ 32)) (htonl (x / 2 ^ 32)) (htonl-lt (x / 2 ^ 32))

ntohll_parts : (x : ℕ) → ntohll x ≡ htonl (x % 2 ^ 32) * 2 ^ 32 + htonl (x / 2 ^ 32)
unfolding ntohll
ntohll_parts x = or_fields 32 (htonl (x % 2 ^ 32)) (htonl (x / 2 ^ 32)) (htonl-lt (x / 2 ^ 32))

pub htonll-lt : (x : ℕ) → htonll x < 2 ^ 64
htonll-lt x = omega (arith, htonll_parts x, htonl-lt (x % 2 ^ 32), htonl-lt (x / 2 ^ 32))

-- Converting a 64-bit value to network order and back gives the value.
pub ntohll-htonll : (x : ℕ) → x < 2 ^ 64 → ntohll (htonll x) ≡ x
ntohll-htonll x h =
    ntohll_parts (htonll x)
    ∙ ap₂ (λ (u v : ℕ). htonl u * 2 ^ 32 + htonl v) low high
    ∙ omega (arith, ntohl-htonl (x / 2 ^ 32) (omega arith), ntohl-htonl (x % 2 ^ 32) (omega arith))
  where
    low : htonll x % 2 ^ 32 ≡ htonl (x / 2 ^ 32)
    low = omega (arith, htonll_parts x, htonl-lt (x / 2 ^ 32))

    high : htonll x / 2 ^ 32 ≡ htonl (x % 2 ^ 32)
    high = omega (arith, htonll_parts x, htonl-lt (x / 2 ^ 32))

-- What is stored is loaded.
pub load-store16 : (v : ℕ) → v < 2 ^ 16 → load16 (store16 v) 0 ≡ v
load-store16 v h = omega arith

pub load-store32 : (v : ℕ) → v < 2 ^ 32 → load32 (store32 v) 0 ≡ v
load-store32 v h = omega arith

pub load-store64 : (v : ℕ) → v < 2 ^ 64 → load64 (store64 v) 0 ≡ v
load-store64 v h = omega arith
