-- ===== src/Wallets.antt =====
-- model/wallets.go: the wallet map, wallet fields and references to them. The credentials that
-- `WalletSpec.Validate` loads from disk are in `Wallets/Keys`.
pub mod References
pub mod Selection
pub mod Keys
use ethereum_playbook.Common.{
  ℕ, Bool, true, false, ◌||◌, Option, none, some, List, [], ◌∷◌, Result, ok, err, panic, map, drop,
  if◌then◌else◌, leb,
}
use ethereum_playbook.Common.Text.{Text, codes, text_eq, split}
use ethereum_playbook.Common.Int.{ℤ}
use ethereum_playbook.Common.Maps.{Map, lookup, keys}
use ethereum_playbook.Common.Sort.{sort_strings, matching}
use ethereum_playbook.Errors.{Error, unknown_reference, unknown_field, malformed_reference}
use ethereum_playbook.Extern.{Libs}
use ethereum_playbook.Values.{Value, text, big, WalletFieldReference}

-- `priv` is the loaded *ecdsa.PrivateKey, and `balance` a *big.Int that is nil until it is fetched.
pub record WalletSpec : Type 0 where
  pub address : Text
  pub priv_key : Text
  pub password : Text
  pub key_store : Text
  pub key_file : Text
  pub balance : Option ℤ
  pub priv : Option Text

-- `map[string]*WalletSpec`; no entry is a nil pointer.
abbrev pub Wallets : Type 0
Wallets = Map WalletSpec

abbrev pub address_field : Text
address_field = codes "address"

abbrev pub password_field : Text
password_field = codes "password"

abbrev pub key_store_field : Text
key_store_field = codes "keystore"

abbrev pub key_file_field : Text
key_file_field = codes "keyfile"

abbrev pub balance_field : Text
balance_field = codes "balance"

-- WalletSpec.HasField
unfoldable pub has_field : Text → Bool
has_field name =
    text_eq name address_field
    || text_eq name password_field
    || text_eq name key_store_field
    || text_eq name key_file_field
    || text_eq name balance_field

-- WalletSpec.FieldValue
unfoldable pub field_value : WalletSpec → Text → Result Error Value
field_value w name =
    if text_eq name address_field
    then ok (text w.address)
    else if text_eq name password_field
    then ok (text w.password)
    else if text_eq name key_store_field
    then ok (text w.key_store)
    else if text_eq name key_file_field
    then ok (text w.key_file)
    else if text_eq name balance_field
    then ok (big w.balance)
    else panic

abbrev field_reference : Wallets → Text → Text → Result Error WalletFieldReference
field_reference wallets wallet_name field_name = elim (lookup wallet_name wallets) [
  | none ↦ err unknown_reference
  | some w ↦
      if has_field field_name
      then ok (record { wallet_name = wallet_name; field_name = field_name })
      else err unknown_field
]

abbrev wallet_by_name : Wallets → Text → Result Error WalletFieldReference
wallet_by_name wallets name = elim (lookup name wallets) [
  | none ↦ err malformed_reference
  | some w ↦ ok (record { wallet_name = name; field_name = address_field })
]

-- Two parts name a wallet and its field; with any other number of parts the first may name a
-- wallet, whose address is then meant.
abbrev reference_of_parts : Wallets → List Text → Result Error WalletFieldReference
reference_of_parts wallets [] = panic
reference_of_parts wallets (name ∷ []) = wallet_by_name wallets name
reference_of_parts wallets (name ∷ field ∷ []) = field_reference wallets name field
reference_of_parts wallets (name ∷ field ∷ rest) = wallet_by_name wallets name

-- newWalletFieldReference; `value[1:]` drops the "@" that its callers have tested.
unfoldable pub new_wallet_field_reference : Wallets → Text → Result Error WalletFieldReference
unfolding has_field
new_wallet_field_reference wallets value = reference_of_parts wallets (split (drop 1 value) b'.')

-- Wallets.NameOf: the first wallet, in the order of the iteration, with that address.
unfoldable pub name_of : Wallets → Text → Text
name_of [] a = []
name_of ((name, w) ∷ rest) a = if text_eq w.address a then name else name_of rest a

-- Wallets.GetAll: the names stand for the pointers `wallets[name]`.
unfoldable pub get_all : Wallets → (Text → Bool) → List Text
get_all wallets rx = sort_strings (matching rx (keys wallets))

-- `wallets[name]` as a pointer, nil where there is no such wallet
abbrev pub pointer : Wallets → Text → Option Text
pointer wallets name = elim (lookup name wallets) [ none ↦ none | some w ↦ some name ]

-- Wallets.GetOne: the hash ring over the sorted names picks the wallet.
unfoldable pub get_one : Libs → Wallets → (Text → Bool) → Text → Option Text
unfolding get_all
get_one libs wallets rx hash = pointer wallets (libs.get_node (get_all wallets rx) hash)
