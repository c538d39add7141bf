-- ===== src/Aria/Diffusion/Linear.antt =====
-- The diffusion layer is linear over `^` and is its own inverse. Both are read off a table of
-- sums of input bytes: a sum is kept as the list of the inputs that it holds an odd number of times.
use mathlib.Core.Path.{fun_ext}
use cds_guard.Prelude.{
  ℕ, zero, suc, ◌≡◌, refl, sym, ap, ap₂, ◌∙◌, Bool, true, false, List, [], ◌∷◌, map, length, get_or,
  tabulate, Bytes, IsByte, AllBytes, IsBlock, ◌⊕◌, replicate, if◌then◌else◌,
}
use cds_guard.Prelude.Xor.{zero-xor, xor-zero, xor_assoc, xor_comm, xor_self, xor-IsByte}
use cds_guard.Aria.Block.{at, xor16, copy16-id, at-IsByte}
use cds_guard.Aria.Diffusion.{dl}

data Sum : Type 0 where
  var : ℕ → Sum
  ◌⊞◌ : Sum → Sum → Sum

infixl 60 ◌⊞◌
abbrev eval : (ℕ → ℕ) → Sum → ℕ
eval env (var k) = env k
eval env (a ⊞ b) = eval env a ⊕ eval env b

-- The sums that `dl` computes.
layer : List Sum
layer =
    (var 6 ⊞ var 8 ⊞ var 13 ⊞ (var 3 ⊞ var 4 ⊞ var 9 ⊞ var 14))
    ∷ (var 7 ⊞ var 9 ⊞ var 12 ⊞ (var 2 ⊞ var 5 ⊞ var 8 ⊞ var 15))
    ∷ (var 4 ⊞ var 10 ⊞ var 15 ⊞ (var 1 ⊞ var 6 ⊞ var 11 ⊞ var 12))
    ∷ (var 5 ⊞ var 11 ⊞ var 14 ⊞ (var 0 ⊞ var 7 ⊞ var 10 ⊞ var 13))
    ∷ (var 0 ⊞ var 11 ⊞ var 14 ⊞ (var 2 ⊞ var 5 ⊞ var 8 ⊞ var 15))
    ∷ (var 1 ⊞ var 10 ⊞ var 15 ⊞ (var 3 ⊞ var 4 ⊞ var 9 ⊞ var 14))
    ∷ (var 2 ⊞ var 9 ⊞ var 12 ⊞ (var 0 ⊞ var 7 ⊞ var 10 ⊞ var 13))
    ∷ (var 3 ⊞ var 8 ⊞ var 13 ⊞ (var 1 ⊞ var 6 ⊞ var 11 ⊞ var 12))
    ∷ (var 1 ⊞ var 4 ⊞ var 15 ⊞ (var 0 ⊞ var 7 ⊞ var 10 ⊞ var 13))
    ∷ (var 0 ⊞ var 5 ⊞ var 14 ⊞ (var 1 ⊞ var 6 ⊞ var 11 ⊞ var 12))
    ∷ (var 3 ⊞ var 6 ⊞ var 13 ⊞ (var 2 ⊞ var 5 ⊞ var 8 ⊞ var 15))
    ∷ (var 2 ⊞ var 7 ⊞ var 12 ⊞ (var 3 ⊞ var 4 ⊞ var 9 ⊞ var 14))
    ∷ (var 2 ⊞ var 7 ⊞ var 9 ⊞ (var 1 ⊞ var 6 ⊞ var 11 ⊞ var 12))
    ∷ (var 3 ⊞ var 6 ⊞ var 8 ⊞ (var 0 ⊞ var 7 ⊞ var 10 ⊞ var 13))
    ∷ (var 0 ⊞ var 5 ⊞ var 11 ⊞ (var 3 ⊞ var 4 ⊞ var 9 ⊞ var 14))
    ∷ (var 1 ⊞ var 4 ⊞ var 10 ⊞ (var 2 ⊞ var 5 ⊞ var 8 ⊞ var 15))
    ∷ []

abbrev plug : (ℕ → Sum) → Sum → Sum
plug f (var k) = f k
plug f (a ⊞ b) = plug f a ⊞ plug f b

-- Which of the inputs `i`, `i + 1`, … stand in the sum an odd number of times.
abbrev flip : Bool → Bool → Bool
flip true true = false
flip true false = true
flip false b = b

abbrev merge : List Bool → List Bool → List Bool
merge [] w = w
merge (b ∷ v) [] = b ∷ v
merge (b ∷ v) (c ∷ w) = flip b c ∷ merge v w

abbrev unit : ℕ → List Bool
unit zero = true ∷ []
unit (suc k) = false ∷ unit k

abbrev odd : Sum → List Bool
odd (var k) = unit k
odd (a ⊞ b) = merge (odd a) (odd b)

abbrev total : (ℕ → ℕ) → List Bool → ℕ
total env [] = 0
total env (b ∷ v) = (if b then env 0 else 0) ⊕ total (λ k. env (suc k)) v

xor_swap : (a b c d : ℕ) → a ⊕ b ⊕ (c ⊕ d) ≡ a ⊕ c ⊕ (b ⊕ d)
xor_swap a b c d =
    xor_assoc a b (c ⊕ d)
    ∙ ap (◌⊕◌ a) (sym (xor_assoc b c d) ∙ ap (λ (t : ℕ). t ⊕ d) (xor_comm b c) ∙ xor_assoc c b d)
    ∙ sym (xor_assoc a c (b ⊕ d))

total-flip :
    (b c : Bool) (x : ℕ) → (if flip b c then x else 0) ≡ (if b then x else 0) ⊕ (if c then x else 0)
total-flip true true x = sym (xor_self x)
total-flip true false x = sym (xor-zero x)
total-flip false true x = sym (zero-xor x)
total-flip false false x = refl

total-merge : (env : ℕ → ℕ) (v w : List Bool) → total env (merge v w) ≡ total env v ⊕ total env w
total-merge env [] w = sym (zero-xor _)
total-merge env (b ∷ v) [] = sym (xor-zero _)
total-merge env (b ∷ v) (c ∷ w) =
    ap₂ ◌⊕◌ (total-flip b c (env 0)) (total-merge (λ k. env (suc k)) v w) ∙ xor_swap _ _ _ _

total-unit : (env : ℕ → ℕ) (k : ℕ) → total env (unit k) ≡ env k
total-unit env zero = xor-zero _
total-unit env (suc k) = zero-xor _ ∙ total-unit (λ j. env (suc j)) k

eval-total : (env : ℕ → ℕ) (a : Sum) → eval env a ≡ total env (odd a)
eval-total env (var k) = sym (total-unit env k)
eval-total env (a ⊞ b) =
    ap₂ ◌⊕◌ (eval-total env a) (eval-total env b) ∙ sym (total-merge env (odd a) (odd b))

-- Which of the first sixteen inputs stand in the sum an odd number of times.
abbrev parity : Sum → List Bool
parity a = merge (odd a) (replicate 16 false)

total-parity : (env : ℕ → ℕ) (a : Sum) → eval env a ≡ total env (parity a)
total-parity env a =
    eval-total env a
    ∙ sym (
        total-merge env (odd a) (replicate 16 false)
        ∙ ap (◌⊕◌ (total env (odd a))) none_odd
        ∙ xor-zero _)
  where
    none_odd : total env (replicate 16 false) ≡ 0
    none_odd = refl

-- Lists of sums with the same inputs have the same values.
map-eval-parity :
    (env : ℕ → ℕ) (es fs : List Sum)
    → map parity es ≡ map parity fs
    → map (eval env) es ≡ map (eval env) fs
map-eval-parity env es fs h = by_parity es ∙ ap (map (total env)) h ∙ sym (by_parity fs)
  where
    by_parity : (ds : List Sum) → map (eval env) ds ≡ map (total env) (map parity ds)
    by_parity [] = refl
    by_parity (d ∷ ds) = ap₂ ◌∷◌ (total-parity env d) (by_parity ds)

dl-layer : (x : Bytes) → dl x ≡ map (eval (at x)) layer
unfolding dl layer
dl-layer x = refl

layer_twice : List Sum
layer_twice = map (plug (λ k. get_or layer k (var 0))) layer

dl-dl-layer : (x : Bytes) → dl (dl x) ≡ map (eval (at x)) layer_twice
unfolding dl layer layer_twice
dl-dl-layer x = refl

parity-layer_twice : map parity layer_twice ≡ map parity (tabulate 16 0 var)
unfolding layer layer_twice
parity-layer_twice = refl

-- The layer undoes itself, on every block.
pub dl-dl : (x : Bytes) → length x ≡ 16 → dl (dl x) ≡ x
dl-dl x h =
    dl-dl-layer x
    ∙ map-eval-parity (at x) layer_twice (tabulate 16 0 var) parity-layer_twice
    ∙ copy16-id x h

eval-xor : (f g : ℕ → ℕ) (a : Sum) → eval (λ k. f k ⊕ g k) a ≡ eval f a ⊕ eval g a
eval-xor f g (var k) = refl
eval-xor f g (a ⊞ b) = ap₂ ◌⊕◌ (eval-xor f g a) (eval-xor f g b) ∙ xor_swap _ _ _ _

dl-xor_layer : (x y : Bytes) → dl (xor16 x y) ≡ map (eval (λ k. at x k ⊕ at y k)) layer
unfolding dl layer xor16
dl-xor_layer x y = refl

xor16-dl-layer :
    (x y : Bytes) → xor16 (dl x) (dl y) ≡ map (λ e. eval (at x) e ⊕ eval (at y) e) layer
unfolding dl layer xor16
xor16-dl-layer x y = refl

-- The layer is linear: it can be taken before or after adding a block.
pub dl-xor16 : (x y : Bytes) → dl (xor16 x y) ≡ xor16 (dl x) (dl y)
dl-xor16 x y =
    dl-xor_layer x y
    ∙ ap (λ (f : Sum → ℕ). map f layer) (fun_ext (eval-xor (at x) (at y)))
    ∙ sym (xor16-dl-layer x y)

eval-IsByte : (env : ℕ → ℕ) (a : Sum) → ((k : ℕ) → IsByte (env k)) → IsByte (eval env a)
eval-IsByte env (var k) h = h k
eval-IsByte env (a ⊞ b) h = xor-IsByte _ _ (eval-IsByte env a h) (eval-IsByte env b h)

map-eval-AllBytes :
    (env : ℕ → ℕ) (es : List Sum) → ((k : ℕ) → IsByte (env k)) → AllBytes (map (eval env) es)
map-eval-AllBytes env [] h = tt
map-eval-AllBytes env (e ∷ es) h = (eval-IsByte env e h, map-eval-AllBytes env es h)

pub length-dl : (x : Bytes) → length (dl x) ≡ 16
unfolding dl
length-dl x = refl

pub dl-IsBlock : (x : Bytes) → AllBytes x → IsBlock (dl x)
dl-IsBlock x h =
    (length-dl x, rw (dl-layer x) (map-eval-AllBytes (at x) layer (λ k. at-IsByte x k h)))
