-- ===== src/Executor/Send.antt =====
-- executor/exec_write.go: the run of a WRITE command.
pub mod Gas
pub mod Keep
pub mod Bound
pub mod Panics
use ethereum_playbook.Common.{
  zero, suc, ℕ, Bool, true, false, not, ◌&&◌, ◌||◌, Option, none, some, List, [], ◌∷◌, ◌++◌, Result,
  ok, panic, ◌>>=◌, ◌>>◌, guard, or_err, if◌then◌else◌, is_empty, map, ltb,
}
use ethereum_playbook.Common.Text.{Text, codes, to_upper, to_lower}
use ethereum_playbook.Common.Int.{ℤ, pos, negsuc}
use ethereum_playbook.Common.Maps.{lookup, insert}
use ethereum_playbook.Errors.{
  Error, rpc_failed, unknown_token, token_not_deployed, no_recipient, no_private_key,
}
use ethereum_playbook.Extern.{Libs}
use ethereum_playbook.Values.{Value, address, big}
use ethereum_playbook.Wallets.{Wallets, WalletSpec}
use ethereum_playbook.Config.{ConfigSpec, gas_price_int, gas_limit_int, chain_id_int}
use ethereum_playbook.Contracts.{
  Contracts, ContractInstanceSpec, InstancePtr, no_ptr, shared, deref, is_bound, is_deployed,
  find_by_token_symbol,
}
use ethereum_playbook.Commands.{WriteCmdSpec}
use ethereum_playbook.Valuer.{is_common_denominator}
use ethereum_playbook.Valuer
use ethereum_playbook.Executor.Chain.{
  Transfer, TransactOpts, Chain, Request, sends_ether, deploys, calls, Written,
}
use ethereum_playbook.Executor.{replace_wallet_placeholders, replace_references, params_of}

module _ (libs : Libs) (chain : Chain) where
  abbrev upper_symbol : ContractInstanceSpec → Option Text → ContractInstanceSpec
  upper_symbol i none = i
  upper_symbol i (some s) = record i { token_symbol = to_upper s }

  -- ContractInstanceSpec.FetchTokenSymbol
  unfoldable pub fetch_token_symbol : ContractInstanceSpec → ContractInstanceSpec
  fetch_token_symbol i = upper_symbol i (chain.symbol (libs.hex_to_address i.address))

  abbrev refresh_instance : ContractInstanceSpec → ContractInstanceSpec
  refresh_instance i = if is_deployed i then fetch_token_symbol i else i

  -- The loops over the contracts and their instances.
  unfoldable pub refresh : Contracts → Contracts
  refresh [] = []
  refresh ((key, c) ∷ rest) =
      (key, record c { instances = map refresh_instance c.instances }) ∷ refresh rest

abbrev instance_denominations : List ContractInstanceSpec → List Text
instance_denominations [] = []
instance_denominations (i ∷ is) =
    let rest = instance_denominations is in
    if is_deployed i && not (is_empty i.token_symbol)
    then to_lower (to_upper i.token_symbol) ∷ rest
    else rest

-- The denominations of the deployed tokens.
unfoldable pub denominations : Contracts → List Text
denominations [] = []
denominations ((key, c) ∷ rest) = instance_denominations c.instances ++ denominations rest

abbrev pub greater : ℤ → ℤ → Bool
greater (pos m) (pos n) = ltb n m
greater (pos m) (negsuc n) = true
greater (negsuc m) (pos n) = false
greater (negsuc m) (negsuc n) = ltb m n

-- The configured price, or the suggested one if it is higher; a comparison with nil panics.
unfoldable pub price : Option ℤ → Option ℤ → Result Error (Option ℤ)
price none configured = ok configured
price (some s) none = panic
price (some s) (some g) = ok (some (if greater s g then s else g))

-- The configured limit, or the estimate if it is lower; a limit that does not parse is 0.
unfoldable pub limit : Option ℕ → Option ℕ → ℕ
limit none estimate = 0
limit (some l) none = l
limit (some l) (some e) = if ltb e l then e else l

-- The value and its denominator, nil and "" where none is given.
abbrev pub value_of : Libs → List Text → Wallets → List Text → Text → Result Error (Option ℤ × Text)
value_of libs args wallets dens v =
    if is_empty v
    then ok (none, [])
    else (do x ← Valuer.parse libs args wallets dens v; ok (some x.value, x.denominator))

abbrev tx_hash : Text → Text
tx_hash hash = codes "tx:" ++ to_lower hash

-- What is nil, and is then called or written to, panics.
abbrev pub unless_nil : Bool → Result Error Unit
unless_nil true = ok tt
unless_nil false = panic

abbrev bound_if_deployed : ContractInstanceSpec → Bool
bound_if_deployed i = not (is_deployed i) || is_bound i

abbrev instances_bound : List ContractInstanceSpec → Bool
instances_bound [] = true
instances_bound (i ∷ is) = bound_if_deployed i && instances_bound is

-- Whether the loops over the deployed instances find a bound contract in each.
unfoldable pub all_bound : Contracts → Bool
all_bound [] = true
all_bound ((key, c) ∷ rest) = instances_bound c.instances && all_bound rest

-- Whether the instance of the command has a bound contract; a nil instance is left alone.
unfoldable pub target_bound : Contracts → InstancePtr → Bool
target_bound contracts no_ptr = true
target_bound contracts p = elim (deref contracts p) [ none ↦ false | some i ↦ is_bound i ]

-- The parts of runWriteCmd that submit: `w` is the matching wallet and `amount` the value.
module _ (libs : Libs) (chain : Chain) (config : ConfigSpec) (args : List Text)
    (contracts : Contracts) (wallets : Wallets) (cmd : WriteCmdSpec) (w : WalletSpec)
    (gas_price : Option ℤ) (amount : Option ℤ) where
  abbrev account : Text
  account = libs.hex_to_address w.address

  abbrev key_of : Option Text → Result Error Text
  key_of (some k) = ok k
  key_of none = or_err no_private_key w.priv

  abbrev pub transfer : ℕ → Transfer
  transfer n = record {
    nonce = n;
    recipient = libs.hex_to_address cmd.to;
    amount = amount;
    gas_limit =
        limit (gas_limit_int config)
          (chain.estimate_gas account (libs.hex_to_address cmd.to) amount gas_price);
    gas_price = gas_price;
  }

  abbrev pub sign_and_send : Transfer → Text → Result Error Written
  sign_and_send tx key = do
    hash ← or_err rpc_failed (chain.sign tx (chain_id_int config) key)
    ok (record { hash = tx_hash hash; failure = chain.send hash; request = sends_ether tx })

  -- "just send ether"
  unfoldable pub send_ether : Result Error Written
  send_ether = do
    nonce ← or_err rpc_failed (chain.nonce_at account)
    key ← key_of (chain.cached_key account w.password)
    sign_and_send (transfer nonce) key

  abbrev own_params : Result Error (List Value)
  own_params = do
    ps ←
        replace_references libs args wallets
          (replace_wallet_placeholders cmd.param_spec.param_values account)
    ok (params_of ps)

  abbrev deploy_opts : TransactOpts
  deploy_opts = record { from = account; value = amount; gas_price = gas_price }

  abbrev packed : Text → Text → List Value → Result Error Unit
  packed at method ps = unless_nil (chain.packs at method ps)

  -- "need to deploy an instance"
  unfoldable pub deploy_instance : Result Error Written
  deploy_instance = do
    ps ← own_params
    packed [] [] ps
    (at, hash) ← or_err rpc_failed (chain.deploy deploy_opts ps)
    ok (record {
      hash = tx_hash hash;
      failure = none;
      request = deploys (to_lower at) deploy_opts ps;
    })

  abbrev method_opts : TransactOpts
  method_opts = record { from = account; value = none; gas_price = gas_price }

  abbrev submit : Text → Text → List Value → Result Error Written
  submit at method ps = do
    packed at method ps
    hash ← or_err rpc_failed (chain.transact at method_opts method ps)
    ok (record { hash = tx_hash hash; failure = none; request = calls at method_opts method ps })

  -- A transfer of tokens: the method is replaced by "transfer".
  unfoldable pub transfer_tokens : Text → Result Error Written
  transfer_tokens denominator = do
    i ← or_err unknown_token (find_by_token_symbol contracts denominator)
    guard (is_deployed i) token_not_deployed
    guard (not (is_empty cmd.to)) no_recipient
    submit (libs.hex_to_address i.address) (codes "transfer")
        (address (libs.hex_to_address cmd.to) ∷ big amount ∷ [])

  abbrev call_method : Option ContractInstanceSpec → Result Error Written
  call_method none = panic
  call_method (some i) = do ps ← own_params; submit (libs.hex_to_address i.address) cmd.method ps

  -- A nil instance is not deployed, but asking it panics.
  abbrev with_instance : Text → Option ContractInstanceSpec → Result Error Written
  with_instance denominator none = panic
  with_instance denominator (some i) =
      if not (is_deployed i)
      then deploy_instance
      else if not (is_empty denominator)
      then transfer_tokens denominator
      else call_method (some i)

  -- The branches behind the value.
  unfoldable pub submit_command : Text → Result Error Written
  submit_command denominator =
      if not (is_empty denominator || is_common_denominator denominator)
      then transfer_tokens denominator
      else if not (is_empty cmd.to)
      then send_ether
      else with_instance denominator (deref contracts cmd.contract_instance)

-- The state that a WRITE command leaves, and its one result: `err` is a result with that error and no
-- transaction.
pub record Outcome : Type 0 where
  pub contracts : Contracts
  pub wallets : Wallets
  pub written : Result Error Written

abbrev pub fetched : Wallets → Text → WalletSpec → Option ℤ → Wallets
fetched wallets name w none = wallets
fetched wallets name w (some b) = insert name (record w { balance = some b }) wallets

abbrev update_at :
    (ContractInstanceSpec → ContractInstanceSpec)
    → ℕ
    → List ContractInstanceSpec
    → List ContractInstanceSpec
update_at f n [] = []
update_at f zero (i ∷ is) = f i ∷ is
update_at f (suc n) (i ∷ is) = i ∷ update_at f n is

abbrev update_instance :
    (ContractInstanceSpec → ContractInstanceSpec) → InstancePtr → Contracts → Contracts
update_instance f (shared key n) contracts = elim (lookup key contracts) [
  | none ↦ contracts
  | some c ↦ insert key (record c { instances = update_at f n c.instances }) contracts
]
update_instance f _ contracts = contracts

abbrev pub deployed_at : Request → Option Text
deployed_at (deploys at opts ps) = some at
deployed_at _ = none

-- A deployment writes the new address into the instance, and asks for its symbol.
unfoldable pub after_deploy :
    Libs → Chain → InstancePtr → Contracts → Result Error Written → Contracts
after_deploy libs chain ptr contracts (ok r) = elim (deployed_at r.request) [
  | none ↦ contracts
  | some at ↦
      update_instance (λ i. fetch_token_symbol libs chain (record i { address = at })) ptr contracts
]
after_deploy libs chain ptr contracts _ = contracts

-- runWriteCmd, for the matching wallet `name`. The method that a transfer of tokens writes into the
-- command is the one in its request.
unfoldable pub run_write_cmd :
    Libs
    → Chain
    → ConfigSpec
    → List Text
    → Contracts
    → Wallets
    → WriteCmdSpec
    → Text
    → WalletSpec
    → Outcome
run_write_cmd libs chain config args contracts wallets cmd name w =
    let contracts' = refresh libs chain contracts in
    let balance = chain.balance_at (libs.hex_to_address w.address) in
    let wallets' = fetched wallets name w balance in
    let written = do
      unless_nil (all_bound contracts && target_bound contracts cmd.contract_instance)
      b ← or_err rpc_failed balance
      gas_price ← price chain.suggest_gas_price (gas_price_int config)
      (amount, denominator) ← value_of libs args wallets' (denominations contracts') cmd.value
      submit_command libs chain config args contracts' wallets' cmd w gas_price amount denominator
    in record {
      contracts = after_deploy libs chain cmd.contract_instance contracts' written;
      wallets = wallets';
      written = written;
    }
