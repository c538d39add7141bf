-- ===== src/GuardL2/Receiver/Buffer.antt =====
-- The map of the packets that came out of order, and the loop that takes them out.
use cds_guard.Prelude.{
  ℕ, zero, suc, ◌<◌, ◌≤◌, ◌≡◌, sym, true, false, List, [], ◌∷◌, ◌==◌, ==→≡, if-elim, Bool-cases,
  inl, inr, length, All, Bytes, arith,
}
use mathlib.Core.Path.{subst}
use cds_guard.GuardL2.Receiver.{Entry, Receiver, contains, lookup, erase, take_buffered, drain}

pub lookup-All {κ} :
    (P : ℕ → Bytes → Type κ) (k : ℕ) (es : List Entry)
    → contains k es ≡ true
    → All (λ (e : Entry). P e.seq e.payload) es
    → P k (lookup k es)
unfolding lookup contains
lookup-All P k [] h a = absurd (ground arith)
lookup-All P k (e ∷ es) h a =
    if-elim (P k) (k == e.seq) (λ t. subst (λ j. P j e.payload) (sym (==→≡ k e.seq t)) a.0)
      (λ f. lookup-All P k es (ground arith) a.1)

pub erase-All {κ} : (P : Entry → Type κ) (k : ℕ) (es : List Entry) → All P es → All P (erase k es)
unfolding erase
erase-All P k [] a = a
erase-All P k (e ∷ es) a =
    if-elim (All P) (k == e.seq) (λ t. erase-All P k es a.1) (λ f. (a.0, erase-All P k es a.1))

length-erase_le : (k : ℕ) (es : List Entry) → length (erase k es) ≤ length es
unfolding erase
length-erase_le k [] = omega arith
length-erase_le k (e ∷ es) =
    if-elim (λ (r : List Entry). length r ≤ suc (length es)) (k == e.seq)
      (λ t. omega (arith, length-erase_le k es)) (λ f. omega (arith, length-erase_le k es))

length-erase : (k : ℕ) (es : List Entry) → contains k es ≡ true → length (erase k es) < length es
unfolding erase contains
length-erase k [] h = absurd (ground arith)
length-erase k (e ∷ es) h =
    if-elim (λ (r : List Entry). length r < suc (length es)) (k == e.seq)
      (λ t. omega (arith, length-erase_le k es))
      (λ f. omega (arith, length-erase k es (ground arith)))

-- With the size of the map as fuel, and with any more, the inner loop ends because the map does not
-- contain the next sequence number.
pub drain_done :
    (fuel : ℕ) (st : Receiver)
    → length st.out_of_order_buffer ≤ fuel
    → contains (drain fuel st).receive_window_base (drain fuel st).out_of_order_buffer ≡ false
unfolding drain take_buffered
drain_done zero st h = elim (Bool-cases (contains st.receive_window_base st.out_of_order_buffer)) [
  | inl t ↦ absurd (omega (arith, length-erase st.receive_window_base st.out_of_order_buffer t))
  | inr f ↦ f
]
drain_done (suc fuel) st h =
    if-elim (λ (r : Receiver). contains r.receive_window_base r.out_of_order_buffer ≡ false)
      (contains st.receive_window_base st.out_of_order_buffer)
      (λ t.
        drain_done fuel (take_buffered st)
          (omega (arith, length-erase st.receive_window_base st.out_of_order_buffer t)))
      (λ f. f)
