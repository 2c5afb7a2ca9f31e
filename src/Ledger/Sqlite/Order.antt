-- ===== src/Ledger/Sqlite/Order.antt =====
-- Sequence numbers that count up, under `ORDER BY sequence` and `MAX(sequence)`.
use mathlib.Core.Option.{get_or}
use rationale_vault.Prelude.{
  ℕ, zero, suc, ◌+◌, ◌<◌, ◌≤◌, ◌≡◌, refl, some, arith, All, IsAscending, max_of,
}
use rationale_vault.Ledger.{count_up}

pub max_of-count_up : (s n : ℕ) → max_of (count_up s (suc n)) ≡ some (s + n)
unfolding max_of
max_of-count_up s zero = ground arith
max_of-count_up s (suc n) = ground (arith, max_of-count_up (suc s) n)

pub max_of-count_up_one : (n : ℕ) → get_or (max_of (count_up 1 n)) 0 ≡ n
unfolding max_of
max_of-count_up_one zero = refl
max_of-count_up_one (suc n) = rw (max_of-count_up 1 n) (omega arith)

pub All-count_up : (s n b : ℕ) → s + n ≤ b → All (λ k. k < b) (count_up s n)
All-count_up s zero b h = tt
All-count_up s (suc n) b h = (omega arith, All-count_up (suc s) n b (omega arith))

All-count_up_le : (b s n : ℕ) → b ≤ s → All (λ k. b ≤ k) (count_up s n)
All-count_up_le b s zero h = tt
All-count_up_le b s (suc n) h = (h, All-count_up_le b (suc s) n (omega arith))

pub IsAscending-count_up : (s n : ℕ) → IsAscending (λ k. k) (count_up s n)
IsAscending-count_up s zero = tt
IsAscending-count_up s (suc n) =
    (All-count_up_le s (suc s) n (omega arith), IsAscending-count_up (suc s) n)
