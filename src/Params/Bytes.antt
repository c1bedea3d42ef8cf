-- ===== src/Params/Bytes.antt =====
-- model/params.go: `bytes` parameters and createStaticBytes; encoding/hex's Decode.
pub mod Length
use ethereum_playbook.Common.{
  ℕ, zero, suc, ◌+◌, ◌-◌, ◌*◌, Bool, true, false, ◌&&◌, Option, none, some, List, [], ◌∷◌, Result,
  ok, err, ◌>>=◌, or_err, if◌then◌else◌, drop, length, leb, ◌==◌,
}
use ethereum_playbook.Common.Text.{Text, codes, has_prefix}
use ethereum_playbook.Common.Int.{ℤ, pos, negsuc}
use ethereum_playbook.Errors.{Error, not_hex, param_parsing}
use ethereum_playbook.Values.{Value, bytes, static_bytes}

-- The value of a hexadecimal digit.
unfoldable pub hex_digit : ℕ → Option ℕ
hex_digit c =
    if leb b'0' c && leb c b'9'
    then some (c - b'0')
    else if leb b'a' c && leb c b'f'
    then some (c - b'a' + 10)
    else if leb b'A' c && leb c b'F'
    then some (c - b'A' + 10)
    else none

abbrev pub join_digits : Option ℕ → Option ℕ → Option (List ℕ) → Option (List ℕ)
join_digits (some h) (some l) (some rest) = some ((h * 16 + l) ∷ rest)
join_digits _ _ _ = none

-- hex.Decode: two digits a byte; an odd number of digits is an error.
unfoldable pub hex_decode : Text → Option (List ℕ)
hex_decode [] = some []
hex_decode (h ∷ []) = none
hex_decode (h ∷ l ∷ s) = join_digits (hex_digit h) (hex_digit l) (hex_decode s)

-- The bytes that a text stands for: hexadecimal behind "0x", its own bytes otherwise.
unfoldable pub bytes_of : Text → Result Error (List ℕ)
bytes_of value =
    if has_prefix value (codes "0x") then or_err not_hex (hex_decode (drop 2 value)) else ok value

-- The switch over the lengths 1 to 32, each of which copies into an array of that length.
abbrev copy_array : ℤ → List ℕ → Result Error Value
copy_array (pos n) buf = if leb 1 n && leb n 32 then ok (static_bytes n buf) else err param_parsing
copy_array (negsuc n) buf = err param_parsing

-- len(buf) != length
abbrev has_length : ℤ → List ℕ → Bool
has_length (pos n) buf = length buf == n
has_length (negsuc n) buf = false

-- createStaticBytes
unfoldable pub create_static_bytes : ℤ → Text → Result Error Value
create_static_bytes len value = do
  buf ← bytes_of value
  if has_length len buf then copy_array len buf else err param_parsing

-- The case `bytes` of parseParam.
unfoldable pub parse_bytes : Text → Result Error Value
parse_bytes value = do buf ← bytes_of value; ok (bytes buf)
