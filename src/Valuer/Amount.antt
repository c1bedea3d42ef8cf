-- ===== src/Valuer/Amount.antt =====
-- The amounts that the denominators stand for.
use ethereum_playbook.Common.{
  ℕ, zero, suc, ◌-◌, ◌*◌, ◌^◌, false, ◌≡◌, ◌≢◌, ◌↔◌, ◌⊎◌, inl, inr, refl, arith, ◌∙◌, if◌then◌else◌,
  Bool-cases, ap,
}
use ethereum_playbook.Common.Text.{Text, text_eq, text_eq_iff}
use ethereum_playbook.Common.Int.{ℤ, pos, negsuc, neg_of_ℕ, ◌*ℤ◌}
use ethereum_playbook.Common.Int.Laws.{pos-*ℤ-pos, negsuc-*ℤ-pos, pos-*ℤ-negsuc, negsuc-*ℤ-negsuc}
use ethereum_playbook.Valuer.{gwei, ether, denominate_value}

-- How many wei the README says that a denominator stands for; a token counts as it stands.
abbrev pub wei_per : Text → ℕ
wei_per den = if text_eq den gwei then 10 ^ 9 else if text_eq den ether then 10 ^ 18 else 1

*ℤ_one : (z : ℤ) → z *ℤ pos 1 ≡ z
*ℤ_one (pos n) = pos-*ℤ-pos n 1 ∙ ap pos (omega arith)
*ℤ_one (negsuc n) = negsuc-*ℤ-pos n 1 ∙ ground arith

ether_value : (z : ℤ) → pos 1 *ℤ pos (10 ^ 9) *ℤ pos (10 ^ 9) *ℤ z ≡ z *ℤ pos (10 ^ 18)
ether_value (pos n) = simp (pos-*ℤ-pos) (ap pos (omega arith))
ether_value (negsuc n) = simp (pos-*ℤ-pos, pos-*ℤ-negsuc, negsuc-*ℤ-pos) (ap neg_of_ℕ (omega arith))

-- With every denominator but gwei the amount is the value times the denominator.
pub denominate_value_exact :
    (val : ℤ) (den : Text) → den ≢ gwei → denominate_value val den ≡ val *ℤ pos (wei_per den)
unfolding denominate_value
denominate_value_exact val den h =
    let not_gwei : text_eq den gwei ≡ false = ground (arith, text_eq_iff den gwei) in
    elim (Bool-cases (text_eq den ether)) [
      | inl e ↦
          let q : den ≡ ether = (text_eq_iff den ether).0 e in
          rw q (unfold text_eq in ether_value val)
      | inr n ↦ rw (not_gwei, n) (ground (arith, *ℤ_one val))
    ]

gwei_pos : (n : ℕ) → n * 10 ^ 9 * n ≡ n * 10 ^ 9 → (n ≡ 0) ⊎ (n ≡ 1)
gwei_pos zero h = inl refl
gwei_pos (suc zero) h = inr refl
gwei_pos (suc (suc n)) h = absurd (omega arith)

-- With gwei it is so only for the values 0 and 1: the value is multiplied in twice.
pub denominate_value-gwei_iff :
    (val : ℤ) → (denominate_value val gwei ≡ val *ℤ pos (10 ^ 9)) ↔ ((val ≡ pos 0) ⊎ (val ≡ pos 1))
unfolding denominate_value text_eq
denominate_value-gwei_iff (pos n) =
    simp pos-*ℤ-pos ((λ h. ground (arith, gwei_pos n)), (λ h. ground arith))
denominate_value-gwei_iff (negsuc n) =
    let low : negsuc n *ℤ pos (10 ^ 9) ≡ negsuc (suc n * 10 ^ 9 - 1) =
      negsuc-*ℤ-pos n (10 ^ 9) ∙ ground arith in
    rw low (rw negsuc-*ℤ-negsuc ((λ h. cc), (λ h. ground arith)))
