-- ===== src/Common/Decimal/RoundTrip.antt =====
-- Reading a printed integer gives it back.
use ethereum_playbook.Common.{
  ℕ, zero, suc, ◌+◌, ◌-◌, ◌*◌, ◌/◌, ◌%◌, ◌≤◌, ◌≡◌, ◌≢◌, refl, some, [], ◌∷◌, arith, ◌==◌,
  Bool-cases, inl, inr, true, false, ◌<◌, ap, sym, ◌∙◌, ==_iff,
}
use ethereum_playbook.Common.Text.{Text}
use ethereum_playbook.Common.Int.{ℤ, pos, negsuc}
use ethereum_playbook.Common.Decimal.{digits_value, natural, integer, emit, show_ℕ, show, is_digit}

digits_value-digit :
    (acc d : ℕ) (s : Text)
    → d < 10
    → digits_value acc ((b'0' + d) ∷ s) ≡ digits_value (acc * 10 + d) s
digits_value-digit acc d s h =
    let value : b'0' + d - b'0' ≡ d = omega arith in
    let digit : is_digit (b'0' + d) ≡ true = ground arith in
    unfold digits_value in rw digit (ap (λ k. digits_value (acc * 10 + k) s) value)

div_mod_ten : (n : ℕ) → n / 10 * 10 + n % 10 ≡ n
div_mod_ten n = omega arith

digits_value-emit :
    (fuel n : ℕ) (out : Text) → n ≤ fuel → digits_value 0 (emit fuel n out) ≡ digits_value n out
unfolding emit
digits_value-emit zero zero out h = refl
digits_value-emit zero (suc n) out h = absurd (omega arith)
digits_value-emit (suc f) n out h = elim (Bool-cases (n == 0)) [
  | inl z ↦ rw z (ap (λ k. digits_value k out) (sym ((==_iff n 0).0 z)))
  | inr nz ↦ rw nz (
      digits_value-emit f (n / 10) ((b'0' + n % 10) ∷ out) (ground arith)
      ∙ digits_value-digit (n / 10) (n % 10) out (omega arith)
      ∙ ap (λ k. digits_value k out) (div_mod_ten n))
]

emit-ne-nil : (fuel n : ℕ) (out : Text) → out ≢ [] → emit fuel n out ≢ []
unfolding emit
emit-ne-nil zero n out h = h
emit-ne-nil (suc f) n out h = elim (Bool-cases (n == 0)) [
  | inl z ↦ rw z h
  | inr nz ↦ rw nz (emit-ne-nil f (n / 10) ((b'0' + n % 10) ∷ out) (λ e. cc))
]

natural_of_digits_value : (s : Text) → s ≢ [] → natural s ≡ digits_value 0 s
unfolding natural
natural_of_digits_value [] h = absurd (h refl)
natural_of_digits_value (c ∷ s) h = refl

digits_value-show_ℕ : (n : ℕ) → digits_value 0 (show_ℕ n) ≡ some n
unfolding show_ℕ
digits_value-show_ℕ n = elim (Bool-cases (n == 0)) [
  | inl z ↦ rw z (unfold digits_value in ap some (sym ((==_iff n 0).0 z)))
  | inr nz ↦ rw nz (digits_value-emit n n [] (omega arith) ∙ unfold digits_value in refl)
]

emit_pos-ne-nil : (n : ℕ) → (n == 0) ≡ false → emit n n [] ≢ []
emit_pos-ne-nil zero h = cc
emit_pos-ne-nil (suc n) h =
    unfold emit in rw h (emit-ne-nil n (suc n / 10) ((b'0' + suc n % 10) ∷ []) (λ e. cc))

show_ℕ-ne-nil : (n : ℕ) → show_ℕ n ≢ []
unfolding show_ℕ
show_ℕ-ne-nil n = elim (Bool-cases (n == 0)) [
  | inl z ↦ rw z (λ e. cc)
  | inr nz ↦ rw nz (emit_pos-ne-nil n nz)
]

pub natural-show_ℕ : (n : ℕ) → natural (show_ℕ n) ≡ some n
natural-show_ℕ n = natural_of_digits_value (show_ℕ n) (show_ℕ-ne-nil n) ∙ digits_value-show_ℕ n

-- A text of digits has no sign.
integer_of_natural : (s : Text) (n : ℕ) → natural s ≡ some n → integer s ≡ some (pos n)
unfolding integer natural digits_value
integer_of_natural [] n h = cc
integer_of_natural (c ∷ s) n h = ground arith

-- Reading the decimal text of an integer gives the integer back.
pub integer-show : (z : ℤ) → integer (show z) ≡ some z
unfolding show
integer-show (pos n) = integer_of_natural (show_ℕ n) n (natural-show_ℕ n)
integer-show (negsuc n) = unfold integer in rw natural-show_ℕ
