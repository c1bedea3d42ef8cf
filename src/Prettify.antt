-- ===== src/Prettify.antt =====
-- prettify.go: what the results of commands become before they are printed as JSON.
pub mod Numbers
use ethereum_playbook.Common.{Option, none, some, List, map, drop, if◌then◌else◌}
use ethereum_playbook.Common.Text.{Text, codes, has_prefix, to_lower}
use ethereum_playbook.Common.Int.{ℤ, fits_bits}
use ethereum_playbook.Common.Decimal.{show}
use ethereum_playbook.Common.Maps.{Map}
use ethereum_playbook.Extern.{Libs}
use ethereum_playbook.Values.{
  Value, nil, text, boolean, big, float, int, uint, bytes, static_bytes, address, wallet_reference,
  arg_reference,
}

-- A Go value that prettifyValue looks at: one of the program's, a *hexutil.Big, which may be nil, or
-- any other by the text that fmt prints for it.
pub data Item : Type 0 where
  plain : Value → Item
  hex_big : Option ℤ → Item
  other : Text → Item

-- A result: one value, a []interface{}, or a map[string]interface{}.
pub data Printable : Type 0 where
  single : Item → Printable
  slice : List Item → Printable
  dict : Map Item → Printable

-- What json.MarshalIndent is given in its place.
pub data Pretty : Type 0 where
  one : Value → Pretty
  array : List Value → Pretty
  object : Map Value → Pretty

-- hexutil.DecodeBig, and fmt's verbs "%v (%T)".
pub record Format : Type 0 where
  pub decode_big : Text → Option ℤ
  pub printed : Value → Text

module _ (libs : Libs) (format : Format) where
  abbrev hex_number : Text → Option ℤ → Value
  hex_number s none = text s
  hex_number s (some z) = if fits_bits 256 z then text (show z) else text s

  unfoldable pub prettify_text : Text → Value
  prettify_text s =
      if has_prefix s (codes "tx:")
      then text (drop 3 s)
      else if has_prefix s (codes "0x")
      then (if libs.is_hex_address s then text (to_lower s) else hex_number s (format.decode_big s))
      else text s

  -- (*big.Int)(nil).String()
  abbrev decimal : Option ℤ → Text
  decimal none = codes "<nil>"
  decimal (some z) = show z

  unfoldable pub prettify_value : Item → Value
  prettify_value (hex_big z) = text (decimal z)
  prettify_value (other s) = text s
  prettify_value (plain (text s)) = prettify_text s
  prettify_value (plain (big z)) = text (decimal z)
  prettify_value (plain (address a)) = text (to_lower (libs.address_hex a))
  prettify_value (plain nil) = nil
  prettify_value (plain (boolean b)) = boolean b
  prettify_value (plain (int w z)) = int w z
  prettify_value (plain (uint w n)) = uint w n
  prettify_value (plain (float s)) = text (format.printed (float s))
  prettify_value (plain (bytes b)) = text (format.printed (bytes b))
  prettify_value (plain (static_bytes n b)) = text (format.printed (static_bytes n b))
  prettify_value (plain (wallet_reference r)) = text (format.printed (wallet_reference r))
  prettify_value (plain (arg_reference id)) = text (format.printed (arg_reference id))

  abbrev prettify_entry : Text × Item → Text × Value
  prettify_entry (key, v) = (key, prettify_value v)

  unfoldable pub prettify : Printable → Pretty
  prettify (single v) = one (prettify_value v)
  prettify (slice vs) = array (map prettify_value vs)
  prettify (dict m) = object (map prettify_entry m)
