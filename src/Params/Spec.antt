-- ===== src/Params/Spec.antt =====
-- model/params.go: ParamSpec, its validation and its count of arguments.
pub mod Outcomes
use ethereum_playbook.Common.{
  ℕ, Bool, true, false, not, ◌&&◌, ◌||◌, Option, none, some, List, [], ◌∷◌, Result, ok, err, panic,
  ◌>>=◌, ◌>>◌, guard, if◌then◌else◌, drop, is_empty,
}
use ethereum_playbook.Common.Text.{Text, codes, text_eq, split, join}
use ethereum_playbook.Common.Int.{ℤ, pos, negsuc, is_nonneg}
use ethereum_playbook.Common.Maps.{lookup}
use ethereum_playbook.Errors.{Error, value_and_reference, unknown_wallet, unsupported_param}
use ethereum_playbook.Extern.{Libs}
use ethereum_playbook.Values.{Value, nil, text, address, wallet_reference, WalletFieldReference}
use ethereum_playbook.Wallets.{Wallets, new_wallet_field_reference, address_field}
use ethereum_playbook.Params.Refs.{
  is_wallet_ref, is_arg_ref, new_arg_reference, index, count_args_in,
}
use ethereum_playbook.Params.Parse.{ParamType, address_type, string_type, param_type, parse_param}

-- A YAML scalar; `scalar` is any that is not a string, by the text that fmt's %v gives it.
pub data Yaml : Type 0 where
  null : Yaml
  str : Text → Yaml
  scalar : Text → Yaml

-- An element of `params`: a string, a map (of which three keys are read) or anything else.
pub data Param : Type 0 where
  plain : Text → Param
  object : Option Yaml → Yaml → Yaml → Param
  unsupported : Param

pub record ParamSpec : Type 0 where
  pub params : List Param
  pub param_values : List Value

-- nillableStr
abbrev pub nillable_str : Yaml → Text
nillable_str null = []
nillable_str (str s) = s
nillable_str (scalar s) = s

-- common.BytesToAddress of the 42 characters "0xEE…E" keeps the last 20 bytes, each an 'E'.
abbrev pub placeholder_addr : Text
placeholder_addr = codes "EEEEEEEEEEEEEEEEEEEE"

-- `typ.(string)`, with "string" where the key is missing
abbrev pub type_text : Option Yaml → Result Error ParamType
type_text none = ok string_type
type_text (some (str s)) = ok (param_type s)
type_text (some _) = panic

-- The loop over the parts of a reference: `none` is a parameter left unresolved, since an argument
-- was not given; the parts behind it are not read.
unfoldable pub resolve_parts : List Text → List Text → Result Error (Option (List Text))
resolve_parts args [] = ok (some [])
resolve_parts args (part ∷ parts) =
    let rest = resolve_parts args parts in
    let with_part : Text → Result Error (Option (List Text)) =
      λ p. rest >>= λ r. ok (elim r [ none ↦ none | some ps ↦ some (p ∷ ps) ]) in
    let resolved = do
      id ← new_arg_reference args part
      if is_nonneg id then (do arg ← index args id; with_part arg) else ok none
    in if is_arg_ref part then resolved else with_part part

-- The text that is parsed; an empty one leaves the value nil.
abbrev pub parse_value : Libs → ParamType → Text → Result Error Value
parse_value libs typ value = if is_empty value then ok nil else parse_param libs typ value

-- A reference to a wallet: "@@" is the placeholder of the current wallet's address.
abbrev pub wallet_param : Wallets → Text → Result Error Value
wallet_param wallets reference =
    if text_eq (drop 1 reference) (codes "@")
    then ok (address placeholder_addr)
    else (do ref ← new_wallet_field_reference wallets reference; ok (wallet_reference ref))

-- The value "@name" of an address parameter.
abbrev pub wallet_address : Wallets → Text → Result Error Value
wallet_address wallets name =
    if text_eq name (codes "@") then ok (address placeholder_addr) else elim (lookup name wallets) [
      | none ↦ err unknown_wallet
      | some w ↦ ok (wallet_reference (record { wallet_name = name; field_name = address_field }))
    ]

abbrev pub is_address : ParamType → Bool
is_address address_type = true
is_address _ = false

-- The text that the parts of a reference make, empty if it is unresolved.
abbrev pub joined : Option (List Text) → Text
joined none = []
joined (some parts) = join parts 32

abbrev pub argument_param : Libs → List Text → ParamType → Text → Result Error Value
argument_param libs args typ reference = do
  parts ← resolve_parts args (split reference 32)
  parse_value libs typ (joined parts)

-- The object case of validateParam.
unfoldable pub validate_object :
    Libs → List Text → Wallets → Result Error ParamType → Text → Text → Result Error Value
validate_object libs args wallets typ value reference = do
  guard (is_empty value || is_empty reference) value_and_reference
  t ← typ
  if not (is_empty reference)
      then (if is_wallet_ref reference
          then wallet_param wallets reference
          else argument_param libs args t reference)
      else if is_address t && is_wallet_ref value
      then wallet_address wallets (drop 1 value)
      else parse_value libs t value

-- ParamSpec.validateParam, with the value that it stores.
unfoldable pub validate_param : Libs → List Text → Wallets → Param → Result Error Value
validate_param libs args wallets (plain s) = ok (text s)
validate_param libs args wallets (object typ value reference) =
    validate_object libs args wallets (type_text typ) (nillable_str value) (nillable_str reference)
validate_param libs args wallets unsupported = err unsupported_param

unfoldable pub validate_params : Libs → List Text → Wallets → List Param → Result Error (List Value)
validate_params libs args wallets [] = ok []
validate_params libs args wallets (p ∷ ps) = do
  v ← validate_param libs args wallets p
  vs ← validate_params libs args wallets ps
  ok (v ∷ vs)

-- ParamSpec.Validate
unfoldable pub validate : Libs → List Text → Wallets → ParamSpec → Result Error ParamSpec
validate libs args wallets spec = do
  values ← validate_params libs args wallets spec.params
  ok (record spec { param_values = values })

abbrev pub reference_of : Param → Text
reference_of (object typ value reference) = nillable_str reference
reference_of _ = []

-- ParamSpec.CountArgsUsing
unfoldable pub count_args_using : List Param → List ℤ → List ℤ
count_args_using [] set = set
count_args_using (p ∷ ps) set =
    count_args_using ps
      (if is_empty (reference_of p) then set else count_args_in (reference_of p) set)
