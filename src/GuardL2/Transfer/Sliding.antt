-- ===== src/GuardL2/Transfer/Sliding.antt =====
-- The loop that moves the window.
use cds_guard.Prelude.{
  ℕ, zero, suc, ◌+◌, ◌-◌, ◌^◌, ◌<◌, ◌≤◌, ◌≡◌, sym, ap, ◌∙◌, true, false, Option, none, u32, ◌==◌,
  ==→≡, if-elim, Bool-cases, inl, inr, arith,
}
use mathlib.Core.Path.{subst}
use cds_guard.GuardL2.Transfer.{SentPacketInfo, Sender, SendBuffer, put_info, is_acked, slide}

-- What the map holds for another number stays.
put_info_other : (k : ℕ) (buffer : SendBuffer) (n : ℕ) → k < n → put_info k none buffer n ≡ buffer n
put_info_other k buffer n h = ground arith

acked_before :
    (k : ℕ) (buffer : SendBuffer) (n : ℕ)
    → is_acked (put_info k none buffer n) ≡ true
    → is_acked (buffer n) ≡ true
acked_before k buffer n =
    if-elim (λ (o : Option SentPacketInfo). is_acked o ≡ true → is_acked (buffer n) ≡ true) (n == k)
      (λ t h. cc) (λ f h. h)

-- Where number `n` is not acknowledged and lies in the window or just behind it, as the next number does,
-- as many turns as there are numbers before it are enough: the loop ends at a number from the old base
-- to `n` that is not acknowledged, and every number that it passes was acknowledged.
pub slide_enough :
    (n fuel : ℕ) (st : Sender)
    → n < 2 ^ 32
    → st.send_window_base ≤ n
    → n - st.send_window_base ≤ fuel
    → is_acked (st.send_buffer n) ≡ false
    → (is_acked ((slide fuel st).send_buffer (slide fuel st).send_window_base) ≡ false)
      × (st.send_window_base ≤ (slide fuel st).send_window_base)
      × ((slide fuel st).send_window_base ≤ n)
      × ((k : ℕ)
          → st.send_window_base ≤ k
          → k < (slide fuel st).send_window_base
          → is_acked (st.send_buffer k) ≡ true)
unfolding slide
slide_enough n zero st small low enough h = (
  subst (λ k. is_acked (st.send_buffer k) ≡ false) (omega arith) h,
  omega arith,
  low,
  λ k a b. absurd (omega arith),
)
slide_enough n (suc fuel) st small low enough h =
    if-elim
      (λ (r : Sender).
        (is_acked (r.send_buffer r.send_window_base) ≡ false)
        × (st.send_window_base ≤ r.send_window_base)
        × (r.send_window_base ≤ n)
        × ((k : ℕ)
            → st.send_window_base ≤ k
            → k < r.send_window_base
            → is_acked (st.send_buffer k) ≡ true))
      (is_acked (st.send_buffer st.send_window_base))
      (λ t.
        let before = below t in
        let next : Sender = record st {
          send_buffer = put_info st.send_window_base none st.send_buffer;
          send_window_base = u32 (st.send_window_base + 1);
        } in
        let ih =
          slide_enough n fuel next small (omega (arith, before)) (omega (arith, before))
            (ap is_acked (put_info_other st.send_window_base st.send_buffer n before) ∙ h) in
        (ih.0, omega (arith, before, ih.1), ih.2, passed t (omega (arith, before)) ih.3))
      (λ f. (f, omega arith, low, λ k a b. absurd (omega arith)))
  where
    -- The base is acknowledged, so it is not `n`.
    below : is_acked (st.send_buffer st.send_window_base) ≡ true → st.send_window_base < n
    below t = elim (Bool-cases (st.send_window_base == n)) [
      | inl e ↦
          absurd (let a = subst (λ k. is_acked (st.send_buffer k) ≡ true) (==→≡ _ _ e) t in cc)
      | inr e ↦ ground arith
    ]

    passed :
        {last : ℕ}
        → is_acked (st.send_buffer st.send_window_base) ≡ true
        → u32 (st.send_window_base + 1) ≡ st.send_window_base + 1
        → ((k : ℕ)
            → u32 (st.send_window_base + 1) ≤ k
            → k < last
            → is_acked (put_info st.send_window_base none st.send_buffer k) ≡ true)
        → (k : ℕ) → st.send_window_base ≤ k
        → k < last
        → is_acked (st.send_buffer k) ≡ true
    passed t e more k a b = elim (Bool-cases (k == st.send_window_base)) [
      | inl q ↦
          subst (λ j. is_acked (st.send_buffer j) ≡ true) (sym (==→≡ k st.send_window_base q)) t
      | inr q ↦ acked_before st.send_window_base st.send_buffer k (more k (ground arith) b)
    ]
