-- ===== src/Trie/Build/Nodes/Find.antt =====
-- The walk through the trie, and what an insertion keeps.
use cds_guard.Prelude.{
  ℕ, zero, suc, ◌≤◌, ◌<◌, ◌≡◌, refl, sym, ap, ◌∙◌, inl, inr, Option, none, some, Option-cases, List,
  [], ◌∷◌, ◌++◌, length, get_or, set, ◌==◌, if◌then◌else◌, All, arith,
}
use cds_guard.Trie.Build.Nodes.{Node, node_at, child_of}

-- The node that the codes lead to from node `i`.
unfoldable pub find : List Node → ℕ → List ℕ → Option ℕ
find nodes i [] = some i
find nodes i (c ∷ codes) = elim (child_of (node_at nodes i).children c) [
  | none ↦ none
  | some j ↦ find nodes j codes
]

-- Every child of a node is a node.
pub record IsTrie (nodes : List Node) : Type 0 where
  pub root : 0 < length nodes
  pub children : (i : ℕ) → All (λ c. c.1 < length nodes) (node_at nodes i).children

module _ {ℓ} {A : Type ℓ} where
  pub length-set : (xs : List A) (i : ℕ) (v : A) → length (set xs i v) ≡ length xs
  length-set [] i v = refl
  length-set (x ∷ xs) zero v = refl
  length-set (x ∷ xs) (suc i) v = ap suc (length-set xs i v)

  pub get_or-set :
      (xs : List A) (i k : ℕ) (v d : A)
      → i < length xs
      → get_or (set xs i v) k d ≡ (if k == i then v else get_or xs k d)
  get_or-set [] i k v d h = elim h [ ]
  get_or-set (x ∷ xs) zero zero v d h = refl
  get_or-set (x ∷ xs) zero (suc k) v d h = ground arith
  get_or-set (x ∷ xs) (suc i) zero v d h = ground arith
  get_or-set (x ∷ xs) (suc i) (suc k) v d h = ground (arith, get_or-set xs i k v d)

  pub get_or-append_one :
      (xs : List A) (k : ℕ) (v d : A)
      → get_or (xs ++ v ∷ []) k d ≡ (if k == length xs then v else get_or xs k d)
  get_or-append_one [] zero v d = refl
  get_or-append_one [] (suc k) v d = ground arith
  get_or-append_one (x ∷ xs) zero v d = ground arith
  get_or-append_one (x ∷ xs) (suc k) v d = ground (arith, get_or-append_one xs k v d)

pub child_of-append :
    (children : List (ℕ × ℕ)) (code i c : ℕ)
    → child_of children code ≡ none
    → child_of (children ++ (code, i) ∷ []) c ≡ (if code == c then some i else child_of children c)
unfolding child_of
child_of-append [] code i c h = refl
child_of-append ((d, j) ∷ children) code i c h = ground (arith, child_of-append children code i c)

pub child_of_lt :
    (children : List (ℕ × ℕ)) (code i bound : ℕ)
    → All (λ c. c.1 < bound) children
    → child_of children code ≡ some i
    → i < bound
unfolding child_of
child_of_lt [] code i bound h e = absurd (cc)
child_of_lt ((d, j) ∷ children) code i bound h e =
    ground (arith, child_of_lt children code i bound h.1)

-- What the insertion of a code at node `i` makes of the nodes: they are kept, with one child more at `i`.
pub record Extends (old new : List Node) : Type 0 where
  pub longer : length old ≤ length new
  pub kept :
      (k c j : ℕ)
      → child_of (node_at old k).children c ≡ some j
      → child_of (node_at new k).children c ≡ some j
  pub sizes : (k : ℕ) → (node_at new k).matched_size ≡ (node_at old k).matched_size

pub Extends-refl : (nodes : List Node) → Extends nodes nodes
Extends-refl nodes = record { longer = omega arith; kept = λ k c j e. e; sizes = λ k. refl }

pub Extends-trans : {a b c : List Node} → Extends a b → Extends b c → Extends a c
Extends-trans f g = record {
  longer = omega (arith, f.longer, g.longer);
  kept = λ k c j e. g.kept k c j (f.kept k c j e);
  sizes = λ k. g.sizes k ∙ f.sizes k;
}

pub find_step :
    (nodes : List Node) (i c k : ℕ) (codes : List ℕ)
    → child_of (node_at nodes i).children c ≡ some k
    → find nodes i (c ∷ codes) ≡ find nodes k codes
unfolding find
find_step nodes i c k codes e = ground arith

pub find_missing :
    (nodes : List Node) (i c : ℕ) (codes : List ℕ)
    → child_of (node_at nodes i).children c ≡ none
    → find nodes i (c ∷ codes) ≡ none
unfolding find
find_missing nodes i c codes e = ground arith

-- The children of `old` are children of `new`.
abbrev pub Keeps : List Node → List Node → Type 0
Keeps old new =
    (k c j : ℕ)
    → child_of (node_at old k).children c ≡ some j
    → child_of (node_at new k).children c ≡ some j

pub find-Keeps :
    (old new : List Node)
    → Keeps old new
    → (codes : List ℕ) (i j : ℕ) → find old i codes ≡ some j
    → find new i codes ≡ some j
find-Keeps old new keeps [] i j e = unfold find in e
find-Keeps old new keeps (c ∷ codes) i j e =
    elim (Option-cases (child_of (node_at old i).children c)) [
      | inl missing ↦ absurd (cc (find_missing old i c codes missing))
      | inr (k, there) ↦
          find_step new i c k codes (keeps i c k there)
          ∙ find-Keeps old new keeps codes k j (sym (find_step old i c k codes there) ∙ e)
    ]
