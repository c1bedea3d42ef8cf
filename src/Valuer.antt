-- ===== src/Valuer.antt =====
-- model/valuer.go: the value of a transaction, an expression with references and a denominator.
pub mod Amount
pub mod Denominators
pub mod Failures
use ethereum_playbook.Common.{
  ℕ, Bool, true, false, not, ◌&&◌, ◌||◌, Option, none, some, List, [], ◌∷◌, ◌++◌, Result, ok, err,
  panic, ◌>>=◌, if◌then◌else◌, is_empty, ◌^◌, ◌*◌,
}
use ethereum_playbook.Common.Text.{
  Text, codes, text_eq, split, join, to_lower, has_suffix, trim_suffix,
}
use ethereum_playbook.Common.Int.{ℤ, pos, is_nonneg, ◌*ℤ◌}
use ethereum_playbook.Common.Decimal.{show}
use ethereum_playbook.Common.Maps.{lookup, member}
use ethereum_playbook.Errors.{Error, illegal_field, insufficient_args, not_math}
use ethereum_playbook.Extern.{Libs}
use ethereum_playbook.Values.{Value, big, as_big, WalletFieldReference}
use ethereum_playbook.Evaler.{expr_integer, run}
use ethereum_playbook.Wallets.{
  Wallets, WalletSpec, balance_field, field_value, new_wallet_field_reference,
}
use ethereum_playbook.Params.Refs.{
  is_wallet_ref, is_arg_ref, is_math_exp, new_arg_reference, index, count_args_in,
}

-- `value_wei` is the integer that the ethfw.Wei of the same value wraps.
pub record ExtendedValue : Type 0 where
  pub value : ℤ
  pub value_wei : ℤ
  pub denominator : Text

abbrev pub gwei : Text
gwei = codes "gwei"

abbrev pub ether : Text
ether = codes "ether"

abbrev pub common_denominations : List Text
common_denominations = codes "wei" ∷ gwei ∷ ether ∷ codes "eth" ∷ []

-- IsCommonDenominator
unfoldable pub is_common_denominator : Text → Bool
unfolding member text_eq
is_common_denominator name = member name common_denominations

-- denominateValue, with the multiplications as the source makes them
unfoldable pub denominate_value : ℤ → Text → ℤ
denominate_value val den =
    if text_eq den (codes "wei") || text_eq den (codes "eth")
    then val
    else if text_eq den gwei
    then val *ℤ pos (10 ^ 9) *ℤ val
    else if text_eq den ether
    then pos 1 *ℤ pos (10 ^ 9) *ℤ pos (10 ^ 9) *ℤ val
    else val

-- `.(*big.Int).String()`, which prints a nil pointer too
abbrev pub balance_text : Value → Result Error Text
balance_text (big none) = ok (codes "<nil>")
balance_text (big (some z)) = ok (show z)
balance_text _ = panic

abbrev pub field_of : Option WalletSpec → Text → Result Error Value
field_of none name = panic
field_of (some w) name = field_value w name

-- The text for a wallet reference.
unfoldable pub wallet_part : Wallets → Text → Result Error Text
wallet_part wallets part = do
  ref ← new_wallet_field_reference wallets part
  if not (text_eq ref.field_name balance_field)
      then err illegal_field
      else (do v ← field_of (lookup ref.wallet_name wallets) ref.field_name; balance_text v)

-- The text for an argument reference.
unfoldable pub arg_part : List Text → Text → Result Error Text
arg_part args part = do
  id ← new_arg_reference args part
  if not (is_nonneg id) then err insufficient_args else index args id

-- One round of the loop over the parts; the second test reads the part as it was.
unfoldable pub replace_part : List Text → Wallets → Text → Result Error Text
replace_part args wallets part = do
  part' ← (if is_wallet_ref part then wallet_part wallets part else ok part)
  if is_arg_ref part then arg_part args part else ok part'

unfoldable pub replace_parts : List Text → Wallets → List Text → Result Error (List Text)
replace_parts args wallets [] = ok []
replace_parts args wallets (part ∷ parts) = do
  part' ← replace_part args wallets part
  parts' ← replace_parts args wallets parts
  ok (part' ∷ parts')

-- The value without its denominator, and the denominator, empty if there is none.
pub record Stripped : Type 0 where
  pub rest : Text
  pub denominator : Text

-- One round of the loop over the denominators.
unfoldable pub strip_one : Text → Stripped → Result Error Stripped
strip_one den s =
    if has_suffix s.rest (32 ∷ den)
    then (let rest = trim_suffix s.rest (32 ∷ den) in
        if is_math_exp rest then ok (record { rest = rest; denominator = den }) else err not_math)
    else ok s

unfoldable pub strip : List Text → Stripped → Result Error Stripped
strip [] s = ok s
strip (den ∷ dens) s = do s' ← strip_one den s; strip dens s'

-- The evaluation behind the loops.
unfoldable pub evaluate : Libs → Stripped → Result Error ExtendedValue
evaluate libs s = if not (is_math_exp s.rest) then err not_math else (do
  result ← run libs s.rest (expr_integer ∷ [])
  value ← as_big result
  let amount = if is_empty s.denominator then value else denominate_value value s.denominator
  ok (record { value = amount; value_wei = amount; denominator = s.denominator }))

-- Valuer.Parse
unfoldable pub parse : Libs → List Text → Wallets → List Text → Text → Result Error ExtendedValue
parse libs args wallets additional v = do
  parts ← replace_parts args wallets (split v 32)
  s ←
      strip (common_denominations ++ additional)
        (record { rest = to_lower (join parts 32); denominator = [] })
  evaluate libs s

-- Valuer.CountArgsUsing
unfoldable pub count_args_using : Text → List ℤ → List ℤ
count_args_using v set = count_args_in v set
