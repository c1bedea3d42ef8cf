-- ===== src/Params/Parse.antt =====
-- model/params.go: ParamType and parseParam, which reads a text as a value of a parameter's type.
pub mod Signed
pub mod Unsigned
use ethereum_playbook.Common.{
  ℕ, zero, suc, ◌+◌, ◌-◌, ◌^◌, ◌%◌, Bool, true, false, ◌&&◌, ◌||◌, Option, none, some, List, [],
  ◌∷◌, Result, ok, err, panic, ◌>>=◌, if◌then◌else◌, ◌==◌, ◌≡◌, refl,
}
use ethereum_playbook.Common.Text.{Text, codes, text_eq, has_prefix, trim_prefix}
use ethereum_playbook.Common.Int.{ℤ, pos, negsuc, magnitude, fits_bits, is_nonneg, signed, low_bits}
use ethereum_playbook.Common.Decimal.{atoi}
use ethereum_playbook.Common.Maps.{Map, lookup}
use ethereum_playbook.Errors.{Error, incompatible_param, param_parsing}
use ethereum_playbook.Extern.{Libs}
use ethereum_playbook.Values.{Value, text, big, int, uint, address, as_big}
use ethereum_playbook.Evaler.{expr_bool, expr_integer, run}
use ethereum_playbook.Params.Bytes.{create_static_bytes, parse_bytes}

-- The named constants; `other` is any other text.
pub data ParamType : Type 0 where
  string_type int_type int8_type int16_type int32_type int64_type int128_type int256_type :
      ParamType
  uint_type uint8_type uint16_type uint32_type uint64_type uint128_type uint256_type : ParamType
  boolean_type address_type byte_type bytes_type : ParamType
  other : Text → ParamType

abbrev param_types : Map ParamType
param_types =
    (codes "string", string_type)
    ∷ (codes "int", int_type)
    ∷ (codes "int8", int8_type)
    ∷ (codes "int16", int16_type)
    ∷ (codes "int32", int32_type)
    ∷ (codes "int64", int64_type)
    ∷ (codes "int128", int128_type)
    ∷ (codes "int256", int256_type)
    ∷ (codes "uint", uint_type)
    ∷ (codes "uint8", uint8_type)
    ∷ (codes "uint16", uint16_type)
    ∷ (codes "uint32", uint32_type)
    ∷ (codes "uint64", uint64_type)
    ∷ (codes "uint128", uint128_type)
    ∷ (codes "uint256", uint256_type)
    ∷ (codes "bool", boolean_type)
    ∷ (codes "address", address_type)
    ∷ (codes "byte", byte_type)
    ∷ (codes "bytes", bytes_type)
    ∷ []

abbrev type_or_other : Text → Option ParamType → ParamType
type_or_other typ none = other typ
type_or_other typ (some t) = t

-- The constant that a text is.
unfoldable pub param_type : Text → ParamType
unfolding lookup text_eq
param_type typ = type_or_other typ (lookup typ param_types)

-- `bits == 0 || tmp.BitLen() <= bits`
abbrev pub has_bits : ℕ → ℤ → Bool
has_bits bits z = bits == 0 || fits_bits bits z

-- The closure parseIntBits.
unfoldable pub parse_int_bits : Libs → Text → ℕ → Result Error ℤ
parse_int_bits libs value bits = do
  result ← run libs value (expr_integer ∷ [])
  tmp ← as_big result
  if has_bits bits tmp then ok tmp else err incompatible_param

-- The closure parseUIntBits.
unfoldable pub parse_uint_bits : Libs → Text → ℕ → Result Error ℤ
parse_uint_bits libs value bits = do
  result ← run libs value (expr_integer ∷ [])
  tmp ← as_big result
  if is_nonneg tmp && has_bits bits tmp then ok tmp else err incompatible_param

-- big.Int.Int64: the low 64 bits, in two's complement.
abbrev pub to_int64 : ℤ → ℤ
to_int64 z = signed (2 ^ 63) (low_bits (2 ^ 64) z)

-- A conversion to a signed type whose half range is `half`.
abbrev pub to_int : ℕ → ℤ → ℤ
to_int half z = signed half (low_bits (half + half) z)

-- big.Int.Uint64
abbrev pub to_uint64 : ℤ → ℕ
to_uint64 z = magnitude z % 2 ^ 64

-- `intN(res.Int64())`, with half = 2 ^ (N - 1)
unfoldable pub parse_int : Libs → Text → ℕ → ℕ → Result Error Value
unfolding parse_int_bits
parse_int libs value bits half = do
  res ← parse_int_bits libs value bits
  ok (int bits (to_int half (to_int64 res)))

-- `uintN(res.Uint64())`
unfoldable pub parse_uint : Libs → Text → ℕ → Result Error Value
unfolding parse_uint_bits
parse_uint libs value bits = do
  res ← parse_uint_bits libs value bits
  ok (uint bits (to_uint64 res % 2 ^ bits))

-- The integers that stay *big.Int.
unfoldable pub parse_big_int : Libs → Text → ℕ → Result Error Value
unfolding parse_int_bits
parse_big_int libs value bits = do res ← parse_int_bits libs value bits; ok (big (some res))

unfoldable pub parse_big_uint : Libs → Text → ℕ → Result Error Value
unfolding parse_uint_bits
parse_big_uint libs value bits = do res ← parse_uint_bits libs value bits; ok (big (some res))

-- The default case: `bytesN` is an array of N bytes, and anything else is refused.
unfoldable pub parse_other : Text → Text → Result Error Value
parse_other typ value =
    if has_prefix typ (codes "bytes")
    then create_static_bytes (atoi (trim_prefix typ (codes "bytes"))).value value
    else err param_parsing

-- parseParam; an error or `ok == false` is `err`.
unfoldable pub parse_param : Libs → ParamType → Text → Result Error Value
unfolding parse_int parse_uint parse_big_int parse_big_uint parse_other
parse_param libs string_type value = ok (text value)
parse_param libs address_type value =
    if libs.is_hex_address value
    then ok (address (libs.hex_to_address value))
    else err param_parsing
parse_param libs byte_type value = parse_uint libs value 8
parse_param libs bytes_type value = parse_bytes value
parse_param libs boolean_type value = run libs value (expr_bool ∷ [])
parse_param libs int_type value = parse_big_int libs value 0
parse_param libs uint_type value = parse_big_uint libs value 0
parse_param libs int128_type value = parse_big_int libs value 128
parse_param libs int256_type value = parse_big_int libs value 256
parse_param libs uint128_type value = parse_big_uint libs value 128
parse_param libs uint256_type value = parse_big_uint libs value 256
parse_param libs int8_type value = parse_int libs value 8 (2 ^ 7)
parse_param libs int16_type value = parse_int libs value 16 (2 ^ 15)
parse_param libs int32_type value = parse_int libs value 32 (2 ^ 31)
parse_param libs int64_type value = parse_int libs value 64 (2 ^ 63)
parse_param libs uint8_type value = parse_uint libs value 8
parse_param libs uint16_type value = parse_uint libs value 16
parse_param libs uint32_type value = parse_uint libs value 32
parse_param libs uint64_type value = parse_uint libs value 64
parse_param libs (other typ) value = parse_other typ value

int128_is_int128 : param_type (codes "int128") ≡ int128_type
unfolding param_type
int128_is_int128 = refl
