-- ===== src/Tests/Running.antt =====
-- The run of commands at concrete inputs.
use ethereum_playbook.Common.{
  panic, true, none, some, List, [], ◌∷◌, ◌++◌, ok, arith, Bool, ◌&&◌, ◌≡◌, ◌≢◌, ◌⊎◌, refl, All,
  length,
}
use ethereum_playbook.Common.Text.{codes, has_prefix, text_eq}
use ethereum_playbook.Common.Int.{pos}
use ethereum_playbook.Common.Maps.{lookup}
use ethereum_playbook.Values.{Value, nil, text, big, wallet_reference}
use ethereum_playbook.Wallets.{field_value}
use ethereum_playbook.Params.Spec.Outcomes.{IsResolvable}
use ethereum_playbook.Contracts.{ContractInstanceSpec, InstancePtr, own}
use ethereum_playbook.Wallets.{Wallets}
use ethereum_playbook.Commands.{CallCmdSpec, ViewCmdSpec}
use ethereum_playbook.Executor.{
  Node, CommandResult, replace_references, run_call_cmd, run_view_cmd, trim,
}
use ethereum_playbook.Executor.Replace.{IsPlain, replace_references-IsPlain}
use ethereum_playbook.Executor.Replace.Given.{is_given, AllGiven}
use ethereum_playbook.Executor.Trim.{all_nil, trim_lem}
use ethereum_playbook.Executor.Count.{IsKnown, result_count, run_call_cmd-length}
use ethereum_playbook.Executor.Await.{
  pending, mined, status, tick, await_tx, Succeeds, await_tx_iff, no_receipt, Event,
}
use ethereum_playbook.Tests.{test_libs, two_wallets, alice, bob}

abbrev balance_of_alice : Value
balance_of_alice =
    wallet_reference (record { wallet_name = codes "alice"; field_name = codes "balance" })

balance_IsResolvable : IsResolvable two_wallets balance_of_alice
unfolding lookup text_eq field_value
balance_IsResolvable = record {
  wallet = alice;
  found = refl;
  value = big (some (pos 7));
  read = refl;
}

replace_references-IsPlain_example :
    (vs : List Value) × (replace_references test_libs [] two_wallets (balance_of_alice ∷ [])
      ≡ ok (some vs))
    × (length vs ≡ length (balance_of_alice ∷ []))
    × All IsPlain vs
replace_references-IsPlain_example =
    replace_references-IsPlain test_libs [] two_wallets (balance_of_alice ∷ [])
      (balance_IsResolvable, tt)

-- Encoding panics on a nil *big.Int.
abbrev pub encodes : List Value → Bool
encodes [] = true
encodes (v ∷ vs) = is_given v && encodes vs

pub encodes-AllGiven : (vs : List Value) → AllGiven vs → encodes vs ≡ true
encodes-AllGiven [] all = refl
encodes-AllGiven (v ∷ vs) (given, others) = ground (arith, given, encodes-AllGiven vs others)

abbrev pub echo : Node
echo = record {
  packs = λ at method ps. encodes ps;
  rpc_call = λ n method ps. record { value = text method; error = none };
  contract_call = λ n at method ps. record { value = nil; error = some (codes "gone") };
  contract_tuple = λ n at method ps. ([], none);
}

abbrev get_balance : CallCmdSpec
get_balance = record {
  param_spec = record { params = []; param_values = balance_of_alice ∷ [] };
  description = [];
  wallet = codes ".";
  method = codes "eth_getBalance";
  matching = codes "alice" ∷ codes "bob" ∷ [];
}

both-IsKnown : All (IsKnown two_wallets) (codes "alice" ∷ codes "bob" ∷ [])
unfolding lookup text_eq
both-IsKnown = ((alice, refl), ((bob, refl), tt))

run_call_cmd-length_example :
    (rs : List CommandResult) × (run_call_cmd test_libs echo [] two_wallets get_balance ≡ ok rs)
    × (length rs ≡ result_count get_balance.matching)
run_call_cmd-length_example =
    run_call_cmd-length test_libs echo [] two_wallets get_balance (balance_IsResolvable, tt)
      both-IsKnown

trim_lem_example :
    (trim (nil ∷ text [] ∷ nil ∷ []) ≢ [])
    × ((dropped : List Value) × (trim (nil ∷ text [] ∷ nil ∷ []) ++ dropped
          ≡ nil ∷ text [] ∷ nil ∷ [])
        × (all_nil dropped ≡ true))
trim_lem_example = trim_lem nil (text [] ∷ nil ∷ [])

abbrev mined_later : List Event
mined_later = tick pending no_receipt ∷ tick mined (status 1) ∷ []

await_tx_iff_example :
    ((await_tx (text (codes "tx:0x1")) pending mined_later ≡ some (ok tt))
      → (pending ≡ mined) ⊎ ((pending ≡ pending) × Succeeds mined_later))
    × ((pending ≡ mined) ⊎ ((pending ≡ pending) × Succeeds mined_later)
        → await_tx (text (codes "tx:0x1")) pending mined_later ≡ some (ok tt))
unfolding has_prefix
await_tx_iff_example = await_tx_iff (codes "tx:0x1") pending mined_later refl

abbrev token : ContractInstanceSpec
token = record {
  name = codes "token";
  address = codes "0xab";
  binding = some (codes "source");
  token_symbol = [];
}

abbrev no_balance : Wallets
no_balance = (codes "alice", record alice { balance = none }) ∷ []

abbrev balance_of : InstancePtr → ViewCmdSpec
balance_of p = record {
  param_spec = record { params = []; param_values = balance_of_alice ∷ [] };
  description = [];
  wallet = [];
  method = codes "balanceOf";
  contract_instance = p;
  matching = [];
}

-- The balance of a wallet that no WRITE command has fetched stops a VIEW command.
test_nil_balance :
    run_view_cmd (λ vs. nil) test_libs echo [] no_balance [] (balance_of (own token)) ≡ panic
unfolding run_view_cmd ethereum_playbook.Contracts.deref ethereum_playbook.Contracts.is_deployed
    text_eq ethereum_playbook.Executor.run_all replace_references
    ethereum_playbook.Executor.replace_field lookup field_value
test_nil_balance = refl

-- So does an instance without a bound contract.
test_unbound :
    run_view_cmd
      (λ vs. nil)
      test_libs
      echo
      []
      no_balance
      []
      (balance_of (own (record token { binding = none })))
    ≡ panic
unfolding run_view_cmd ethereum_playbook.Contracts.deref ethereum_playbook.Contracts.is_deployed
    text_eq
test_unbound = refl
