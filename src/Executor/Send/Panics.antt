-- ===== src/Executor/Send/Panics.antt =====
-- When the run of a WRITE command panics.
use ethereum_playbook.Common.{
  Result, ok, ◌&&◌, ◌>>=◌, >>=-panic_cases, >>=-eq-ok, refl, ap, true, false, not, ◌||◌, Option,
  none, some, List, [], ◌∷◌, panic, or_err, >>=-ne-panic, or_err-ne-panic, ok-ne-panic,
  guard-ne-panic, is_empty, ◌≡◌, ◌≢◌, arith, Bool-cases, inl, inr, All, All-imp,
}
use ethereum_playbook.Common.Text.{Text, codes}
use ethereum_playbook.Common.Int.{ℤ}
use ethereum_playbook.Errors.{
  Error, rpc_failed, unknown_token, token_not_deployed, no_recipient, no_private_key,
}
use ethereum_playbook.Extern.{Libs}
use ethereum_playbook.Values.{Value, address, big}
use ethereum_playbook.Wallets.{Wallets, WalletSpec}
use ethereum_playbook.Config.{ConfigSpec, gas_price_int}
use ethereum_playbook.Contracts.{Contracts, ContractInstanceSpec, is_deployed, find_by_token_symbol}
use ethereum_playbook.Commands.{WriteCmdSpec}
use ethereum_playbook.Valuer.{is_common_denominator}
use ethereum_playbook.Params.Spec.Outcomes.{IsResolvable}
use ethereum_playbook.Valuer
use ethereum_playbook.Valuer.{ExtendedValue}
use ethereum_playbook.Executor.{replace_references, replace_wallet_placeholders, params_of}
use ethereum_playbook.Executor.Replace.Given.{
  is_given, AllGiven, AllFirm, replace_wallet_placeholders-AllFirm, replace_references-AllGiven,
}
use ethereum_playbook.Executor.Replace.{
  replace_references-IsPlain, replace_wallet_placeholders-IsResolvable,
}
use ethereum_playbook.Executor.Chain.{Chain}
use ethereum_playbook.Executor.Send.{
  unless_nil, all_bound, target_bound, packed, key_of, send_ether, own_params, deploy_instance,
  submit, transfer_tokens, call_method, with_instance, submit_command, price, value_of, fetched,
  refresh, denominations, run_write_cmd,
}
use ethereum_playbook.Executor.Send.Keep.{IsReached, IsReached-refresh, IsResolvable-fetched}

module _ (libs : Libs) (chain : Chain) (config : ConfigSpec) (args : List Text)
    (contracts : Contracts) (wallets : Wallets) (cmd : WriteCmdSpec) (w : WalletSpec)
    (gas_price amount : Option ℤ) (known : All (IsResolvable wallets) cmd.param_spec.param_values)
    (firm : AllFirm cmd.param_spec.param_values)
    (packs : (at method : Text) (ps : List Value)
      → AllGiven ps
      → chain.packs at method ps ≡ true) where
  own_params-ne-panic :
      own_params libs chain config args contracts wallets cmd w gas_price amount ≢ panic
  own_params-ne-panic h =
      let (vs, sent, _, _) =
        replace_references-IsPlain libs args wallets
          (replace_wallet_placeholders cmd.param_spec.param_values (libs.hex_to_address w.address))
          (replace_wallet_placeholders-IsResolvable wallets cmd.param_spec.param_values
            (libs.hex_to_address w.address) known) in
      absurd (ground (arith, sent))

  own_params-AllGiven :
      (ps : List Value)
      → own_params libs chain config args contracts wallets cmd w gas_price amount ≡ ok ps
      → AllGiven ps
  own_params-AllGiven ps h =
      let sent =
        replace_wallet_placeholders cmd.param_spec.param_values (libs.hex_to_address w.address) in
      let give : Option (List Value) → Result Error (List Value) = λ o. ok (params_of o) in
      let (o, read, done) = >>=-eq-ok (replace_references libs args wallets sent) give h in
      let q : ps ≡ params_of o = ground arith in
      rw q (
        replace_references-AllGiven libs args wallets sent o
          (replace_wallet_placeholders-AllFirm cmd.param_spec.param_values
            (libs.hex_to_address w.address) firm)
          read)

  -- What is done with the command's parameters may take them for given.
  with_own_params :
      {A : Type 0} (k : List Value → Result Error A)
      → ((ps : List Value) → AllGiven ps → k ps ≢ panic)
      → (own_params libs chain config args contracts wallets cmd w gas_price amount >>= k) ≢ panic
  with_own_params k runs h =
      elim (>>=-panic_cases
        (own_params libs chain config args contracts wallets cmd w gas_price amount) k h) [
          | inl bad ↦ own_params-ne-panic bad
          | inr (ps, given, later) ↦ runs ps (own_params-AllGiven ps given) later
        ]

  packed-ne-panic :
      (at method : Text) (ps : List Value)
      → AllGiven ps
      → packed libs chain config args contracts wallets cmd w gas_price amount at method ps ≢ panic
  packed-ne-panic at method ps given h = absurd (ground (arith, packs at method ps given))

  send_ether-ne-panic :
      send_ether libs chain config args contracts wallets cmd w gas_price amount ≢ panic
  unfolding send_ether
  send_ether-ne-panic =
      >>=-ne-panic (or_err rpc_failed (chain.nonce_at (libs.hex_to_address w.address))) _
        (or_err-ne-panic _ _)
        (λ n.
          >>=-ne-panic
            (key_of libs chain config args contracts wallets cmd w gas_price amount
              (chain.cached_key (libs.hex_to_address w.address) w.password))
            _ (with_key (chain.cached_key (libs.hex_to_address w.address) w.password))
            (λ key. >>=-ne-panic _ _ (or_err-ne-panic _ _) (λ hash. ok-ne-panic _)))
    where
      with_key :
          (o : Option Text)
          → key_of libs chain config args contracts wallets cmd w gas_price amount o ≢ panic
      with_key (some k) h = cc
      with_key none h = or_err-ne-panic no_private_key w.priv h

  submit-ne-panic :
      (at method : Text) (ps : List Value)
      → AllGiven ps
      → submit libs chain config args contracts wallets cmd w gas_price amount at method ps ≢ panic
  submit-ne-panic at method ps given =
      >>=-ne-panic _ _ (packed-ne-panic at method ps given)
        (λ _. >>=-ne-panic _ _ (or_err-ne-panic _ _) (λ hash. ok-ne-panic _))

  deploy_instance-ne-panic :
      deploy_instance libs chain config args contracts wallets cmd w gas_price amount ≢ panic
  unfolding deploy_instance
  deploy_instance-ne-panic = with_own_params _ (λ ps given.
      >>=-ne-panic _ _ (packed-ne-panic [] [] ps given)
        (λ _. >>=-ne-panic _ _ (or_err-ne-panic _ _) (λ at. ok-ne-panic _)))

  transfer_tokens-ne-panic :
      (denominator : Text)
      → is_given (big amount) ≡ true
      → transfer_tokens libs chain config args contracts wallets cmd w gas_price amount denominator
        ≢ panic
  unfolding transfer_tokens
  transfer_tokens-ne-panic denominator given =
      >>=-ne-panic _ _ (or_err-ne-panic unknown_token (find_by_token_symbol contracts denominator))
        (λ (i : ContractInstanceSpec).
          >>=-ne-panic _ _ (guard-ne-panic (is_deployed i) token_not_deployed) (λ _.
            >>=-ne-panic _ _ (guard-ne-panic (not (is_empty cmd.to)) no_recipient) (λ _.
              submit-ne-panic (libs.hex_to_address i.address) (codes "transfer")
                (address (libs.hex_to_address cmd.to) ∷ big amount ∷ []) (refl, (given, tt)))))

  call_method-ne-panic :
      (i : ContractInstanceSpec)
      → call_method libs chain config args contracts wallets cmd w gas_price amount (some i) ≢ panic
  call_method-ne-panic i =
      with_own_params _ (submit-ne-panic (libs.hex_to_address i.address) cmd.method)

  with_instance-ne-panic :
      (denominator : Text) (i : ContractInstanceSpec)
      → (is_empty denominator ≡ false → is_given (big amount) ≡ true)
      → with_instance libs chain config args contracts wallets cmd w gas_price amount denominator
          (some i)
        ≢ panic
  with_instance-ne-panic denominator i given h = elim (Bool-cases (is_deployed i)) [
    | inr missing ↦ deploy_instance-ne-panic (ground (arith, missing))
    | inl deployed ↦ elim (Bool-cases (is_empty denominator)) [
      | inr named ↦
          transfer_tokens-ne-panic denominator (given named) (ground (arith, deployed, named))
      | inl absent ↦ call_method-ne-panic i (ground (arith, deployed, absent))
    ]
  ]

  -- A command with resolvable parameters, and with an instance where it has no recipient, submits or
  -- fails with an error.
  pub submit_command-ne-panic :
      (denominator : Text)
      → (is_empty denominator ≡ false → is_given (big amount) ≡ true)
      → (is_empty cmd.to ≡ true → IsReached contracts cmd.contract_instance)
      → submit_command libs chain config args contracts wallets cmd w gas_price amount denominator
        ≢ panic
  unfolding submit_command
  submit_command-ne-panic denominator given reached h =
      elim (Bool-cases (is_empty denominator || is_common_denominator denominator)) [
        | inr token ↦
            transfer_tokens-ne-panic denominator (given (ground (arith, token)))
              (ground (arith, token))
        | inl common ↦ elim (Bool-cases (is_empty cmd.to)) [
          | inr named ↦ send_ether-ne-panic (ground (arith, common, named))
          | inl absent ↦
              let (i, points) = reached absent in
              with_instance-ne-panic denominator i given (ground (arith, common, absent, points))
        ]
      ]

price-ne-panic : (suggested : Option ℤ) (g : ℤ) → price suggested (some g) ≢ panic
unfolding price
price-ne-panic none g h = cc
price-ne-panic (some s) g h = cc

-- A value with a denominator is not nil.
value_of-given :
    (libs : Libs) (args : List Text) (wallets : Wallets) (denominators : List Text) (value : Text)
    (v : Option ℤ × Text)
    → value_of libs args wallets denominators value ≡ ok v
    → is_empty v.1 ≡ false
    → is_given (big v.0) ≡ true
value_of-given libs args wallets denominators value v h named = elim (Bool-cases (is_empty value)) [
  | inl absent ↦
      let q : v ≡ (none, []) = ground (arith, absent) in
      absurd (ground (arith, ap (λ (x : Option ℤ × Text). is_empty x.1) q))
  | inr present ↦
      let give : ExtendedValue → Result Error (Option ℤ × Text) =
        λ x. ok (some x.value, x.denominator) in
      let bound : (Valuer.parse libs args wallets denominators value >>= give) ≡ ok v =
        ground (arith, present) in
      let (x, read, done) =
        >>=-eq-ok (Valuer.parse libs args wallets denominators value) give bound in
      let q : v ≡ (some x.value, x.denominator) = ground arith in rw q refl
]

-- The run of a WRITE command that validation has made ready does not panic, if the configured gas price
-- parses, reading its value does not panic, the contracts are bound, and what is sent can be encoded.
pub run_write_cmd-ne-panic :
    (libs : Libs) (chain : Chain) (config : ConfigSpec) (args : List Text) (contracts : Contracts)
    (wallets : Wallets) (cmd : WriteCmdSpec) (name : Text) (w : WalletSpec) (g : ℤ)
    → gas_price_int config ≡ some g
    → All (IsResolvable wallets) cmd.param_spec.param_values
    → AllFirm cmd.param_spec.param_values
    → ((at method : Text) (ps : List Value) → AllGiven ps → chain.packs at method ps ≡ true)
    → all_bound contracts ≡ true
    → target_bound contracts cmd.contract_instance ≡ true
    → (is_empty cmd.to ≡ true → IsReached contracts cmd.contract_instance)
    → ((ws : Wallets) (denominators : List Text)
        → value_of libs args ws denominators cmd.value ≢ panic)
    → (run_write_cmd libs chain config args contracts wallets cmd name w).written ≢ panic
unfolding run_write_cmd
run_write_cmd-ne-panic libs chain config args contracts wallets cmd name w g priced known firm packs
      bound target reached value =
    let balance = chain.balance_at (libs.hex_to_address w.address) in
    let contracts' = refresh libs chain contracts in
    let wallets' = fetched wallets name w balance in
    let known' =
      All-imp cmd.param_spec.param_values (IsResolvable-fetched wallets name w balance) known in
    >>=-ne-panic (unless_nil (all_bound contracts && target_bound contracts cmd.contract_instance))
      _ (rw (bound, target) (ok-ne-panic _))
      (λ _. >>=-ne-panic (or_err rpc_failed balance) _ (or_err-ne-panic _ _) (λ b.
        >>=-ne-panic (price chain.suggest_gas_price (gas_price_int config)) _
          (rw priced (price-ne-panic chain.suggest_gas_price g))
          (λ gas_price h.
            elim (>>=-panic_cases (value_of libs args wallets' (denominations contracts') cmd.value)
              (λ v.
                submit_command libs chain config args contracts' wallets' cmd w gas_price v.0 v.1)
              h) [
                | inl bad ↦ value wallets' (denominations contracts') bad
                | inr (v, parsed, later) ↦
                    submit_command-ne-panic libs chain config args contracts' wallets' cmd w
                      gas_price v.0 known' firm packs v.1
                      (value_of-given libs args wallets' (denominations contracts') cmd.value v
                        parsed)
                      (λ empty.
                        IsReached-refresh libs chain contracts cmd.contract_instance
                          (reached empty))
                      later
              ])))
