-- ===== src/Aria/Tables/Inverse.antt =====
-- Each S-box has its inverse two places further on, and holds bytes.
use cds_guard.Prelude.{
  ℕ, zero, suc, ◌+◌, ◌%◌, ◌<◌, ◌≡◌, refl, true, arith, ltb, ◌==◌, ltb→lt, ==→≡, all_below,
  all_below_sound, IsByte,
}
use cds_guard.Aria.Tables.{s_at}

below-table : (k : ℕ) → k < 4 → all_below 256 (λ x. ltb (s_at k x) 256) ≡ true
unfolding all_below s_at
below-table zero h = refl
below-table (suc zero) h = refl
below-table (suc (suc zero)) h = refl
below-table (suc (suc (suc zero))) h = refl
below-table (suc (suc (suc (suc k)))) h = absurd (omega arith)

inverse-table : (k : ℕ) → k < 4 → all_below 256 (λ x. s_at ((2 + k) % 4) (s_at k x) == x) ≡ true
unfolding all_below s_at
inverse-table zero h = refl
inverse-table (suc zero) h = refl
inverse-table (suc (suc zero)) h = refl
inverse-table (suc (suc (suc zero))) h = refl
inverse-table (suc (suc (suc (suc k)))) h = absurd (omega arith)

-- A substitution yields a byte.
pub s_at-IsByte : (k x : ℕ) → k < 4 → x < 256 → IsByte (s_at k x)
s_at-IsByte k x hk hx = ltb→lt _ _ (all_below_sound 256 _ x (below-table k hk) hx)

-- The S-box two places further on undoes the substitution, for every byte and every S-box.
pub s_at-inverse : (k x : ℕ) → k < 4 → x < 256 → s_at ((2 + k) % 4) (s_at k x) ≡ x
s_at-inverse k x hk hx = ==→≡ _ _ (all_below_sound 256 _ x (inverse-table k hk) hx)
