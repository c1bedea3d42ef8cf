-- ===== src/Executor.antt =====
-- executor/executor.go, exec_call.go, exec_read.go: the run of CALL and VIEW commands, with the
-- parameters that a command sends. The wait for a transaction is in `Executor/Await`.
pub mod Replace
pub mod Count
pub mod Await
pub mod Trim
pub mod Chain
pub mod Send
pub mod Target
pub mod Session
use ethereum_playbook.Common.{
  ℕ, suc, Bool, true, false, not, ◌&&◌, Option, none, some, List, [], ◌∷◌, ◌++◌, Result, ok, err,
  panic, ◌>>=◌, ◌>>◌, if◌then◌else◌, is_empty, map, get_elem?, take,
}
use ethereum_playbook.Common.Text.{Text, codes, text_eq, has_prefix}
use ethereum_playbook.Common.Int.{ℤ, pos, negsuc}
use ethereum_playbook.Common.Maps.{lookup}
use ethereum_playbook.Errors.{Error}
use ethereum_playbook.Extern.{Libs}
use ethereum_playbook.Values.{
  Value, nil, text, big, address, wallet_reference, arg_reference, WalletFieldReference,
}
use ethereum_playbook.Wallets.{Wallets, WalletSpec, address_field, balance_field, field_value}
use ethereum_playbook.Contracts.{Contracts, ContractInstanceSpec, deref, is_bound, is_deployed}
use ethereum_playbook.Commands.{CallCmdSpec, ViewCmdSpec}
use ethereum_playbook.Params.Spec.{placeholder_addr}

-- A CommandResult; its error is the text of the Go error.
pub record CommandResult : Type 0 where
  pub name : Text
  pub wallet : Text
  pub result : Value
  pub error : Option Text

-- What a call leaves in the result, and its error.
pub record Answer : Type 0 where
  pub value : Value
  pub error : Option Text

-- The node and the bound contracts: the n-th request of a command gets an answer of its own. A tuple
-- is unmarshalled into the 32 values of a valStorage. `packs` tells whether the encoding of the
-- parameters of a method, for the contract at an address, ends without a panic.
pub record Node : Type 0 where
  pub rpc_call : ℕ → Text → List Value → Answer
  pub packs : Text → Text → List Value → Bool
  pub contract_call : ℕ → Text → Text → List Value → Answer
  pub contract_tuple : ℕ → Text → Text → List Value → List Value × Option Text

abbrev replace_placeholder : Text → Value → Value
replace_placeholder a (address b) = if text_eq b placeholder_addr then address a else address b
replace_placeholder a v = v

-- replaceWalletPlaceholders
unfoldable pub replace_wallet_placeholders : List Value → Text → List Value
replace_wallet_placeholders params a = map (replace_placeholder a) params

abbrev assert_big : Value → Result Error Value
assert_big (big z) = ok (big z)
assert_big _ = panic

abbrev assert_text : Libs → Value → Result Error Value
assert_text libs (text s) = ok (address (libs.hex_to_address s))
assert_text libs _ = panic

abbrev field_param : Libs → Text → Value → Result Error Value
field_param libs field v =
    if text_eq field balance_field
    then assert_big v
    else if text_eq field address_field
    then assert_text libs v
    else ok v

-- A field of a nil wallet is a nil dereference.
unfoldable pub replace_field : Libs → Wallets → WalletFieldReference → Result Error Value
replace_field libs wallets r = elim (lookup r.wallet_name wallets) [
  | none ↦ panic
  | some w ↦ field_value w r.field_name >>= field_param libs r.field_name
]

-- `AppCommandArgs()[arg.ArgID]`, and no value for a negative id
abbrev arg_param : List Text → ℤ → Result Error (Option Value)
arg_param args (negsuc n) = ok none
arg_param args (pos n) = elim (get_elem? args n) [ none ↦ panic | some s ↦ ok (some (text s)) ]

abbrev replace_reference : Libs → List Text → Wallets → Value → Result Error (Option Value)
replace_reference libs args wallets (wallet_reference r) = do
  v ← replace_field libs wallets r
  ok (some v)
replace_reference libs args wallets (arg_reference id) = arg_param args id
replace_reference libs args wallets v = ok (some v)

abbrev with_param :
    Result Error (Option (List Value)) → Option Value → Result Error (Option (List Value))
with_param rest none = ok none
with_param rest (some v) = rest >>= λ r. ok (elim r [ none ↦ none | some vs ↦ some (v ∷ vs) ])

-- replaceReferences, with `none` for the nil slice that an argument that is missing leaves
unfoldable pub replace_references :
    Libs → List Text → Wallets → List Value → Result Error (Option (List Value))
replace_references libs args wallets [] = ok (some [])
replace_references libs args wallets (p ∷ ps) =
    let rest = replace_references libs args wallets ps in
    replace_reference libs args wallets p >>= with_param rest

abbrev pub params_of : Option (List Value) → List Value
params_of none = []
params_of (some vs) = vs

abbrev pub with_name : Text → CommandResult → CommandResult
with_name name r = record r { name = name }

-- setName
unfoldable pub set_name : List CommandResult → Text → List CommandResult
set_name [] name = record { name = name; wallet = []; result = nil; error = none } ∷ []
set_name (r ∷ rs) name = map (with_name name) (r ∷ rs)

abbrev pub result_of : Text → Answer → CommandResult
result_of wallet a = record { name = []; wallet = wallet; result = a.value; error = a.error }

abbrev pub or_panic : {A : Type 0} → Option A → Result Error A
or_panic none = panic
or_panic (some a) = ok a

-- The loop over the wallets: one request for each, with the wallet's address for the placeholder.
-- The names stand for the pointers.
module _ (libs : Libs) (args : List Text) (wallets : Wallets) (params : List Value) where
  unfoldable pub run_each :
      (ℕ → List Value → Option Answer) → ℕ → List Text → Result Error (List CommandResult)
  run_each send n [] = ok []
  run_each send n (name ∷ names) =
      let rest = run_each send (suc n) names in
      elim (lookup name wallets) [
        | none ↦ panic
        | some w ↦ (do
          ps ←
              replace_references libs args wallets
                (replace_wallet_placeholders params (libs.hex_to_address w.address))
          a ← or_panic (send n (params_of ps))
          rs ← rest
          ok (result_of w.address a ∷ rs))
      ]

  -- A command without wallets makes one request, and keeps its placeholders.
  unfoldable pub run_all :
      (ℕ → List Value → Option Answer) → List Text → Result Error (List CommandResult)
  run_all send [] = do
    ps ← replace_references libs args wallets params
    a ← or_panic (send 0 (params_of ps))
    ok (result_of [] a ∷ [])
  run_all send (name ∷ names) = run_each send 0 (name ∷ names)

-- runCallCmd
unfoldable pub run_call_cmd :
    Libs → Node → List Text → Wallets → CallCmdSpec → Result Error (List CommandResult)
run_call_cmd libs node args wallets cmd =
    run_all libs args wallets cmd.param_spec.param_values
      (λ n ps. some (node.rpc_call n cmd.method ps)) cmd.matching

abbrev pub is_nil_value : Value → Bool
is_nil_value nil = true
is_nil_value _ = false

-- The loop of Trim: the index of the last value that is not nil.
unfoldable pub last_from : ℕ → ℕ → List Value → ℕ
last_from i last [] = last
last_from i last (v ∷ vs) = last_from (suc i) (if is_nil_value v then last else i) vs

-- valStorage.Trim
unfoldable pub trim : List Value → List Value
trim backing = take (suc (last_from 0 0 backing)) backing

abbrev tuple_error : Text
tuple_error = codes "abi: cannot unmarshal tuple"

-- The Go value []interface{}, for a result that is a tuple.
abbrev view_answer : (List Value → Value) → List Value × Option Text → Answer → Answer
view_answer slice tuple a = elim a.error [
  | none ↦ a
  | some e ↦
      if has_prefix e tuple_error
      then record { value = slice (trim tuple.0); error = tuple.1 }
      else a
]

-- A request of a VIEW command: a tuple is asked for once more, into the storage.
abbrev pub view_call : (List Value → Value) → Node → Text → Text → ℕ → List Value → Option Answer
view_call slice node at method n ps =
    if node.packs at method ps
    then some
        (view_answer slice (node.contract_tuple n at method ps) (node.contract_call n at method ps))
    else none

abbrev pub not_deployed_yet : List CommandResult
not_deployed_yet =
    result_of []
      (record { value = nil; error = some (codes "contract instance is not deployed yet") })
    ∷ []

-- runViewCmd; `slice` makes a value of the trimmed tuple. An instance without a bound contract is a
-- nil dereference.
unfoldable pub run_view_cmd :
    (List Value → Value)
    → Libs
    → Node
    → List Text
    → Wallets
    → Contracts
    → ViewCmdSpec
    → Result Error (List CommandResult)
run_view_cmd slice libs node args wallets contracts cmd =
    elim (deref contracts cmd.contract_instance) [
      | none ↦ panic
      | some i ↦
          if not (is_deployed i)
          then ok not_deployed_yet
          else if is_bound i
          then run_all libs args wallets cmd.param_spec.param_values
              (view_call slice node i.address cmd.method) cmd.matching
          else panic
    ]
