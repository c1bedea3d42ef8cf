-- ===== src/Executor/Count.antt =====
-- The results of a CALL command.
use ethereum_playbook.Common.{
  ℕ, suc, Option, some, List, [], ◌∷◌, ok, if◌then◌else◌, ◌≡◌, refl, arith, ap, is_empty, length,
  All,
}
use ethereum_playbook.Common.Text.{Text}
use ethereum_playbook.Common.Maps.{lookup}
use ethereum_playbook.Extern.{Libs}
use ethereum_playbook.Values.{Value}
use ethereum_playbook.Wallets.{Wallets, WalletSpec}
use ethereum_playbook.Commands.{CallCmdSpec}
use ethereum_playbook.Params.Spec.Outcomes.{IsResolvable}
use ethereum_playbook.Executor.{
  Node, Answer, CommandResult, replace_references, replace_wallet_placeholders, run_each, run_all,
  run_call_cmd, result_of,
}
use ethereum_playbook.Executor.Replace.{
  replace_references-IsPlain, replace_wallet_placeholders-IsResolvable,
}

-- The wallet that a name stands for.
abbrev pub IsKnown : Wallets → Text → Type 0
IsKnown wallets name = (w : WalletSpec) × (lookup name wallets ≡ some w)

-- One result for each wallet, and one for none.
abbrev pub result_count : List Text → ℕ
result_count names = if is_empty names then 1 else length names

module _ (libs : Libs) (args : List Text) (wallets : Wallets) (params : List Value)
    (known : All (IsResolvable wallets) params) where
  -- Every request that the parameters can make gets an answer.
  abbrev pub Sends : (ℕ → List Value → Option Answer) → Type 0
  Sends send =
      ((n : ℕ) (a : Text) (vs : List Value)
        → replace_references libs args wallets (replace_wallet_placeholders params a) ≡ ok (some vs)
        → (r : Answer) × (send n vs ≡ some r))
      × ((n : ℕ) (vs : List Value)
          → replace_references libs args wallets params ≡ ok (some vs)
          → (r : Answer) × (send n vs ≡ some r))

  run_each-length :
      (send : ℕ → List Value → Option Answer)
      → Sends send
      → (n : ℕ) (names : List Text) → All (IsKnown wallets) names
      → (rs : List CommandResult) × (run_each libs args wallets params send n names ≡ ok rs)
        × (length rs ≡ length names)
  unfolding run_each
  run_each-length send sends n [] there = ([], refl, refl)
  run_each-length send sends n (name ∷ names) ((w, found), others) =
      let (rs, ran, same) = run_each-length send sends (suc n) names others in
      let (vs, sent, _, _) =
        replace_references-IsPlain libs args wallets
          (replace_wallet_placeholders params (libs.hex_to_address w.address))
          (replace_wallet_placeholders-IsResolvable wallets params (libs.hex_to_address w.address)
            known) in
      let (a, answered) = sends.0 n (libs.hex_to_address w.address) vs sent in
      (result_of w.address a ∷ rs, ground (arith, found, sent, answered, ran), ap suc same)

  pub run_all-length :
      (send : ℕ → List Value → Option Answer)
      → Sends send
      → (names : List Text) → All (IsKnown wallets) names
      → (rs : List CommandResult) × (run_all libs args wallets params send names ≡ ok rs)
        × (length rs ≡ result_count names)
  unfolding run_all
  run_all-length send sends [] there =
      let (vs, sent, _, _) = replace_references-IsPlain libs args wallets params known in
      let (a, answered) = sends.1 0 vs sent in
      (result_of [] a ∷ [], ground (arith, sent, answered), refl)
  run_all-length send sends (name ∷ names) there = run_each-length send sends 0 (name ∷ names) there

-- A validated CALL command runs without a panic, whatever the node answers, and gives one result for
-- each of its wallets, or one result if it has none.
pub run_call_cmd-length :
    (libs : Libs) (node : Node) (args : List Text) (wallets : Wallets) (cmd : CallCmdSpec)
    → All (IsResolvable wallets) cmd.param_spec.param_values
    → All (IsKnown wallets) cmd.matching
    → (rs : List CommandResult) × (run_call_cmd libs node args wallets cmd ≡ ok rs)
      × (length rs ≡ result_count cmd.matching)
unfolding run_call_cmd
run_call_cmd-length libs node args wallets cmd known there =
    run_all-length libs args wallets cmd.param_spec.param_values known
      (λ n ps. some (node.rpc_call n cmd.method ps)) (λ n a vs h. (_, refl), λ n vs h. (_, refl))
      cmd.matching there
