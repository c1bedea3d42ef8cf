-- ===== src/Params/Parse/Signed.antt =====
-- Signed integer parameters: which values are accepted, and which of them are kept.
use ethereum_playbook.Common.{
  ℕ, ◌+◌, ◌-◌, ◌^◌, ◌<◌, Bool, true, false, some, [], ◌∷◌, ok, err, ◌≡◌, refl, arith, if◌then◌else◌,
  ltb, ltb→lt, ◌==◌, Bool-cases, inl, inr, ap, ◌↔◌,
}
use ethereum_playbook.Common.Text.{Text}
use ethereum_playbook.Common.Int.{ℤ, pos, negsuc, magnitude, fits_bits}
use ethereum_playbook.Errors.{incompatible_param}
use ethereum_playbook.Extern.{Libs}
use ethereum_playbook.Values.{big, int}
use ethereum_playbook.Evaler.{expr_integer, run}
use ethereum_playbook.Params.Parse.{
  ParamType, int8_type, int16_type, int32_type, int64_type, parse_int, parse_param, to_int,
  to_int64,
}

-- `t` is intN with N bits, and half is 2 ^ (N - 1).
pub data SignedType : ParamType → ℕ → ℕ → Type 0 where
  is_int8 : SignedType int8_type 8 128
  is_int16 : SignedType int16_type 16 32768
  is_int32 : SignedType int32_type 32 2147483648
  is_int64 : SignedType int64_type 64 9223372036854775808

-- The value of the expression is the integer `z`.
abbrev pub EvaluatesTo : Libs → Text → ℤ → Type 0
EvaluatesTo libs value z = run libs value (expr_integer ∷ []) ≡ ok (big (some z))

-- What a signed N-bit type keeps of an integer whose magnitude has at most N bits.
abbrev pub wrap : ℕ → ℤ → ℤ
wrap half (pos n) = if ltb n half then pos n else negsuc (half + half - 1 - n)
wrap half (negsuc n) = if ltb n half then negsuc n else pos (half + half - 1 - n)

to_int8 : (z : ℤ) → magnitude z < 256 → to_int 128 (to_int64 z) ≡ wrap 128 z
to_int8 (pos n) h = ground arith
to_int8 (negsuc n) h = ground arith

to_int16 : (z : ℤ) → magnitude z < 65536 → to_int 32768 (to_int64 z) ≡ wrap 32768 z
to_int16 (pos n) h = ground arith
to_int16 (negsuc n) h = ground arith

to_int32 : (z : ℤ) → magnitude z < 4294967296 → to_int 2147483648 (to_int64 z) ≡ wrap 2147483648 z
to_int32 (pos n) h = ground arith
to_int32 (negsuc n) h = ground arith

to_int64-wrap : (z : ℤ) → magnitude z < 2 ^ 64 → to_int (2 ^ 63) (to_int64 z) ≡ wrap (2 ^ 63) z
to_int64-wrap (pos n) h = ground arith
to_int64-wrap (negsuc n) h = ground arith

module _ (libs : Libs) (value : Text) (z : ℤ) (eval : EvaluatesTo libs value z) where
  parse_int_of :
      (bits half : ℕ)
      → ((bits == 0) ≡ false)
      → (magnitude z < 2 ^ bits → to_int half (to_int64 z) ≡ wrap half z)
      → parse_int libs value bits half
        ≡ (if fits_bits bits z then ok (int bits (wrap half z)) else err incompatible_param)
  unfolding parse_int
  parse_int_of bits half nz conv = elim (Bool-cases (fits_bits bits z)) [
    | inl fits ↦ rw (eval, nz, fits) (ap (λ k. ok (int bits k)) (conv (ltb→lt _ _ fits)))
    | inr too_big ↦ rw (eval, nz, too_big)
  ]

  -- A signed parameter of N bits is accepted exactly when its magnitude has at most N bits, and what
  -- is stored is its value modulo 2 ^ N.
  pub parse_param_wraps :
      (t : ParamType) (bits half : ℕ)
      → SignedType t bits half
      → parse_param libs t value
        ≡ (if fits_bits bits z then ok (int bits (wrap half z)) else err incompatible_param)
  unfolding parse_param
  parse_param_wraps t bits half is_int8 = parse_int_of 8 128 refl (to_int8 z)
  parse_param_wraps t bits half is_int16 = parse_int_of 16 32768 refl (to_int16 z)
  parse_param_wraps t bits half is_int32 = parse_int_of 32 2147483648 refl (to_int32 z)
  parse_param_wraps t bits half is_int64 =
      parse_int_of 64 9223372036854775808 refl (to_int64-wrap z)

-- The range of a signed type with half range `half`.
abbrev pub in_range : ℕ → ℤ → Bool
in_range half (pos n) = ltb n half
in_range half (negsuc n) = ltb n half

wrap_iff :
    (half : ℕ) (z : ℤ) → magnitude z < half + half → (wrap half z ≡ z) ↔ (in_range half z ≡ true)
wrap_iff half (pos n) h = ground arith
wrap_iff half (negsuc n) h = ground arith

fits_of_in_range :
    (bits half : ℕ) (z : ℤ) → half < 2 ^ bits → in_range half z ≡ true → fits_bits bits z ≡ true
fits_of_in_range bits half (pos n) h r = ground arith
fits_of_in_range bits half (negsuc n) h r = ground arith

module _ (libs : Libs) (value : Text) (z : ℤ) (eval : EvaluatesTo libs value z) where
  keeps_of :
      (t : ParamType) (bits half : ℕ)
      → SignedType t bits half
      → (fits_bits bits z ≡ true → magnitude z < half + half)
      → (in_range half z ≡ true → fits_bits bits z ≡ true)
      → (parse_param libs t value ≡ ok (int bits z)) ↔ (in_range half z ≡ true)
  keeps_of t bits half s small fits =
      let stored = parse_param_wraps libs value z eval t bits half s in
      (
        (λ h. ground (arith, stored, h, small, wrap_iff half z)),
        (λ h. ground (arith, stored, fits h, small, wrap_iff half z)),
      )

  -- A signed parameter of N bits is stored unchanged exactly when its value is from -2 ^ (N - 1) to
  -- 2 ^ (N - 1) - 1.
  pub parse_param_keeps_iff :
      (t : ParamType) (bits half : ℕ)
      → SignedType t bits half
      → (parse_param libs t value ≡ ok (int bits z)) ↔ (in_range half z ≡ true)
  parse_param_keeps_iff t bits half is_int8 =
      keeps_of t 8 128 is_int8 (ltb→lt _ _) (fits_of_in_range 8 128 z (omega arith))
  parse_param_keeps_iff t bits half is_int16 =
      keeps_of t 16 32768 is_int16 (ltb→lt _ _) (fits_of_in_range 16 32768 z (omega arith))
  parse_param_keeps_iff t bits half is_int32 =
      keeps_of t 32 2147483648 is_int32 (ltb→lt _ _)
        (fits_of_in_range 32 2147483648 z (omega arith))
  parse_param_keeps_iff t bits half is_int64 =
      keeps_of t 64 9223372036854775808 is_int64 (ltb→lt _ _)
        (fits_of_in_range 64 9223372036854775808 z (omega arith))
