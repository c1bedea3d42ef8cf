-- ===== src/Prettify/Numbers.antt =====
-- The numbers that prettifying prints are read back.
use ethereum_playbook.Common.{true, false, Option, none, some, [], ◌∷◌, ◌≡◌, arith}
use ethereum_playbook.Common.Text.{Text, codes, has_prefix}
use ethereum_playbook.Common.Int.{ℤ, fits_bits}
use ethereum_playbook.Common.Decimal.{integer, show}
use ethereum_playbook.Common.Decimal.RoundTrip.{integer-show}
use ethereum_playbook.Extern.{Libs}
use ethereum_playbook.Values.{Value, text, big}
use ethereum_playbook.Prettify.{Item, plain, hex_big, Format, prettify_text, prettify_value}

-- The number that a printed text stands for.
abbrev pub read_back : Value → Option ℤ
read_back (text s) = integer s
read_back _ = none

module _ (libs : Libs) (format : Format) where
  -- The values that stand for a number: big integers, and hexadecimal texts of at most 256 bits that
  -- are not addresses.
  pub data Denotes : Item → ℤ → Type 0 where
    of_big : (z : ℤ) → Denotes (plain (big (some z))) z
    of_hex_big : (z : ℤ) → Denotes (hex_big (some z)) z
    of_hex_text :
        (s : Text) (z : ℤ)
        → has_prefix s (codes "0x") ≡ true
        → libs.is_hex_address s ≡ false
        → format.decode_big s ≡ some z
        → fits_bits 256 z ≡ true
        → Denotes (plain (text s)) z

  not_tx : (s : Text) → has_prefix s (codes "0x") ≡ true → has_prefix s (codes "tx:") ≡ false
  unfolding has_prefix
  not_tx [] h = cc
  not_tx (c ∷ s) h = ground arith

  -- A value that stands for a number is printed as a decimal text from which the number is read back.
  pub read_back-prettify_value :
      {v : Item} {z : ℤ} → Denotes v z → read_back (prettify_value libs format v) ≡ some z
  unfolding prettify_value
  read_back-prettify_value (of_big z) = integer-show z
  read_back-prettify_value (of_hex_big z) = integer-show z
  read_back-prettify_value (of_hex_text s z hex plain_text decoded fits) =
      let q : prettify_text libs format s ≡ text (show z) =
        unfold prettify_text in ground (arith, hex, plain_text, decoded, fits, not_tx s hex) in
      rw q (integer-show z)
