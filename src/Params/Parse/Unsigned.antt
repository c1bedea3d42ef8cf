-- ===== src/Params/Parse/Unsigned.antt =====
-- Unsigned integer parameters are accepted in their range and stored unchanged; a numeric parameter
-- whose expression is not integral stops the program.
use ethereum_playbook.Common.{
  ℕ, ◌^◌, ◌%◌, ◌≤◌, ◌<◌, Bool, true, false, ◌&&◌, [], ◌∷◌, ok, err, panic, some, ◌≡◌, refl, arith,
  if◌then◌else◌, ltb, ◌==◌, Bool-cases, inl, inr, ap,
}
use ethereum_playbook.Common.Text.{Text, codes}
use ethereum_playbook.Common.Int.{ℤ, magnitude, fits_bits, is_nonneg}
use ethereum_playbook.Errors.{incompatible_param}
use ethereum_playbook.Extern.{Libs, typed, prints, fractional}
use ethereum_playbook.Values.{big, uint, float}
use ethereum_playbook.Evaler.{expr_integer, run}
use ethereum_playbook.Evaler.Types.{run_fractional}
use ethereum_playbook.Params.Parse.{
  ParamType, string_type, address_type, bytes_type, boolean_type, other, uint8_type, uint16_type,
  uint32_type, uint64_type, byte_type, parse_uint, parse_param, to_uint64,
}

-- `t` is uintN, or byte, with N bits and the bound 2 ^ N.
pub data UnsignedType : ParamType → ℕ → ℕ → Type 0 where
  is_byte : UnsignedType byte_type 8 256
  is_uint8 : UnsignedType uint8_type 8 256
  is_uint16 : UnsignedType uint16_type 16 65536
  is_uint32 : UnsignedType uint32_type 32 4294967296
  is_uint64 : UnsignedType uint64_type 64 18446744073709551616

-- The types whose text is evaluated as an integer.
abbrev pub is_integer_type : ParamType → Bool
is_integer_type string_type = false
is_integer_type address_type = false
is_integer_type bytes_type = false
is_integer_type boolean_type = false
is_integer_type (other typ) = false
is_integer_type _ = true

low_uint : (n bound : ℕ) → bound ≤ 2 ^ 64 → n < bound → n % 2 ^ 64 % bound ≡ n
low_uint n bound h k = grind arith

module _ (libs : Libs) (value : Text) where
  module _ (z : ℤ) (eval : run libs value (expr_integer ∷ []) ≡ ok (big (some z))) where
    parse_uint_of :
        (bits : ℕ)
        → (bits == 0) ≡ false
        → (magnitude z < 2 ^ bits → to_uint64 z % 2 ^ bits ≡ magnitude z)
        → parse_uint libs value bits ≡ (
            if is_nonneg z && fits_bits bits z
            then ok (uint bits (magnitude z))
            else err incompatible_param)
    unfolding parse_uint
    parse_uint_of bits nz conv = elim (Bool-cases (is_nonneg z && fits_bits bits z)) [
      | inl fits ↦ rw (eval, nz, fits) (ap (λ k. ok (uint bits k)) (conv (ground arith)))
      | inr out ↦ rw (eval, nz, out)
    ]

    -- An unsigned parameter of at most 64 bits is accepted exactly when its value is not negative and
    -- fits, and it is stored unchanged.
    pub parse_param_unsigned :
        (t : ParamType) (bits bound : ℕ)
        → UnsignedType t bits bound
        → parse_param libs t value ≡ (
            if is_nonneg z && ltb (magnitude z) bound
            then ok (uint bits (magnitude z))
            else err incompatible_param)
    unfolding parse_param
    parse_param_unsigned t bits bound is_byte =
        parse_uint_of 8 refl (low_uint (magnitude z) 256 (omega arith))
    parse_param_unsigned t bits bound is_uint8 =
        parse_uint_of 8 refl (low_uint (magnitude z) 256 (omega arith))
    parse_param_unsigned t bits bound is_uint16 =
        parse_uint_of 16 refl (low_uint (magnitude z) 65536 (omega arith))
    parse_param_unsigned t bits bound is_uint32 =
        parse_uint_of 32 refl (low_uint (magnitude z) 4294967296 (omega arith))
    parse_param_unsigned t bits bound is_uint64 =
        parse_uint_of 64 refl (low_uint (magnitude z) 18446744073709551616 (omega arith))

  parse_param_float :
      (t : ParamType) (shown : Text)
      → is_integer_type t ≡ true
      → run libs value (expr_integer ∷ []) ≡ ok (float shown)
      → parse_param libs t value ≡ panic
  unfolding parse_param
  parse_param_float string_type shown h e = cc
  parse_param_float address_type shown h e = cc
  parse_param_float bytes_type shown h e = cc
  parse_param_float boolean_type shown h e = cc
  parse_param_float (other typ) shown h e = cc
  parse_param_float _ shown h e = rw e

  -- A parameter of any integer type whose expression go-eval compiles to type "ideal float", and whose
  -- value has a fraction, stops the program: the evaluator returns the float though an integer is
  -- expected, and the type assertion on it fails.
  pub parse_param_fractional :
      (t : ParamType) (shown : Text)
      → is_integer_type t ≡ true
      → libs.compile value ≡ typed (codes "ideal float") (prints shown)
      → libs.parse_float shown ≡ fractional
      → parse_param libs t value ≡ panic
  parse_param_fractional t shown h compiled fraction =
      parse_param_float t shown h
        (run_fractional libs (expr_integer ∷ []) value shown compiled fraction)
