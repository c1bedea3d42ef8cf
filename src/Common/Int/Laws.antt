-- ===== src/Common/Int/Laws.antt =====
-- Products of integers by sign.
use Prim.Native.Nat.{ℕ, suc, ◌*◌}
use mathlib.Core.Path.{◌≡◌}
use native.Mathlib.Omega.{arith}
use ethereum_playbook.Common.Int.{pos, negsuc, neg_of_ℕ, ◌*ℤ◌}

pub pos-*ℤ-pos : (m n : ℕ) → pos m *ℤ pos n ≡ pos (m * n)
unfolding ◌*ℤ◌
pos-*ℤ-pos m n = ground arith

pub negsuc-*ℤ-pos : (m n : ℕ) → negsuc m *ℤ pos n ≡ neg_of_ℕ (suc m * n)
unfolding ◌*ℤ◌
negsuc-*ℤ-pos m n = ground arith

pub pos-*ℤ-negsuc : (m n : ℕ) → pos m *ℤ negsuc n ≡ neg_of_ℕ (m * suc n)
unfolding ◌*ℤ◌
pos-*ℤ-negsuc m n = ground arith

pub negsuc-*ℤ-negsuc : (m n : ℕ) → negsuc m *ℤ negsuc n ≡ pos (suc m * suc n)
unfolding ◌*ℤ◌
negsuc-*ℤ-negsuc m n = ground arith
