-- ===== src/Executor/Send/Gas.antt =====
-- The gas price and the gas limit of a WRITE command.
use ethereum_playbook.Common.{
  ℕ, false, Option, none, some, ok, ltb, ◌≡◌, ◌≤◌, refl, arith, Bool-cases, inl, inr,
}
use ethereum_playbook.Common.Int.{ℤ, pos, negsuc}
use ethereum_playbook.Executor.Send.{greater, price, limit}

-- The gas price of a WRITE command is the configured one, or the suggested one if that is higher:
-- neither of the two is above it. The gas limit is at most the configured one.
pub price_lem :
    (s g p : ℤ) (l : ℕ) (estimate : Option ℕ)
    → price (some s) (some g) ≡ ok (some p)
    → (greater s p ≡ false) × (greater g p ≡ false) × (limit (some l) estimate ≤ l)
unfolding price limit
price_lem s g p l estimate h = (above s g p h, over s g p h, under estimate)
  where
    above : (s g p : ℤ) → price (some s) (some g) ≡ ok (some p) → greater s p ≡ false
    above (pos m) (pos n) p h = elim (Bool-cases (ltb n m)) [
      | inl y ↦ let q : p ≡ pos m = ground (arith, y) in rw q (ground arith)
      | inr y ↦ let q : p ≡ pos n = ground (arith, y) in rw q y
    ]
    above (pos m) (negsuc n) p h = let q : p ≡ pos m = ground arith in rw q (ground arith)
    above (negsuc m) (pos n) p h = let q : p ≡ pos n = ground arith in rw q refl
    above (negsuc m) (negsuc n) p h = elim (Bool-cases (ltb m n)) [
      | inl y ↦ let q : p ≡ negsuc m = ground (arith, y) in rw q (ground arith)
      | inr y ↦ let q : p ≡ negsuc n = ground (arith, y) in rw q y
    ]

    over : (s g p : ℤ) → price (some s) (some g) ≡ ok (some p) → greater g p ≡ false
    over (pos m) (pos n) p h = elim (Bool-cases (ltb n m)) [
      | inl y ↦ let q : p ≡ pos m = ground (arith, y) in rw q (ground (arith, y))
      | inr y ↦ let q : p ≡ pos n = ground (arith, y) in rw q (ground arith)
    ]
    over (pos m) (negsuc n) p h = let q : p ≡ pos m = ground arith in rw q refl
    over (negsuc m) (pos n) p h = let q : p ≡ pos n = ground arith in rw q (ground arith)
    over (negsuc m) (negsuc n) p h = elim (Bool-cases (ltb m n)) [
      | inl y ↦ let q : p ≡ negsuc m = ground (arith, y) in rw q (ground (arith, y))
      | inr y ↦ let q : p ≡ negsuc n = ground (arith, y) in rw q (ground arith)
    ]

    under : (e : Option ℕ) → limit (some l) e ≤ l
    under none = ground arith
    under (some e) = ground arith
