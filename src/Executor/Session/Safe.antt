-- ===== src/Executor/Session/Safe.antt =====
-- A target whose commands are ready runs without a panic.
use ethereum_playbook.Common.{
  ℕ, true, none, ◌⊎◌, Option, suc, some, List, Result, ok, err, panic, ◌≡◌, ◌≢◌, refl, arith, inl,
  inr, All, Bool-cases,
}
use ethereum_playbook.Common.Text.{Text}
use ethereum_playbook.Common.Int.{ℤ}
use ethereum_playbook.Common.Maps.{lookup}
use ethereum_playbook.Errors.{Error}
use ethereum_playbook.Extern.{Libs}
use ethereum_playbook.Values.{Value}
use ethereum_playbook.Wallets.{Wallets, WalletSpec}
use ethereum_playbook.Config.{ConfigSpec, gas_price_int}
use ethereum_playbook.Contracts.{Contracts, InstancePtr, is_deployed}
use ethereum_playbook.Commands.{CallCmdSpec, ViewCmdSpec, WriteCmdSpec, is_nil}
use ethereum_playbook.Targets.{Cmds, name}
use ethereum_playbook.Params.Spec.Outcomes.{IsResolvable}
use ethereum_playbook.Executor.{
  replace_wallet_placeholders, view_answer, Answer, CommandResult, Node, run_call_cmd, run_view_cmd,
  view_call, not_deployed_yet,
}
use ethereum_playbook.Executor.Count.{IsKnown, run_call_cmd-length, run_all-length}
use ethereum_playbook.Executor.Chain.{Written}
use ethereum_playbook.Executor.Send.{Outcome, value_of, run_write_cmd, refresh, target_bound}
use ethereum_playbook.Executor.Send.Keep.{
  IsReached, IsReached-refresh, IsReached-after_deploy, IsKnown-fetched, IsResolvable-fetched,
}
use ethereum_playbook.Executor.Send.Bound.{
  IsShared, all_bound-true, target_bound-nil, target_bound-shared, shared-is_bound,
  AllBound-refresh, AllBound-after_deploy,
}
use ethereum_playbook.Executor.Replace.Given.{
  AllGiven, AllFirm, replace_wallet_placeholders-AllFirm, replace_references-AllGiven,
}
use ethereum_playbook.Contracts.Bound.{AllBound}
use ethereum_playbook.Executor.Send.Panics.{run_write_cmd-ne-panic}
use ethereum_playbook.Executor.Target.{run_target}
use ethereum_playbook.Executor.Target.Clean.{IsClean, Runs, Keeps, run_target-IsClean}
use ethereum_playbook.Executor.Session.Ready.{
  IsReady, Kept, Kept-refl, Kept-next, Kept-trans, ReadyCall-kept, ReadyView-kept, ReadyWrite-kept,
}
use ethereum_playbook.Executor.Session.{
  World, Session, next, unless_panic, call_in, view_in, write_results, after_outcome, write_for,
  executor,
}

-- A VIEW command with resolvable parameters, known wallets, and a bound instance gives results, whatever
-- the node answers, if what it sends can be encoded: one error where the instance is not deployed.
pub run_view_cmd-runs :
    (slice : List Value → Value) (libs : Libs) (node : Node) (args : List Text) (wallets : Wallets)
    (contracts : Contracts) (cmd : ViewCmdSpec)
    → All (IsResolvable wallets) cmd.param_spec.param_values
    → All (IsKnown wallets) cmd.matching
    → AllFirm cmd.param_spec.param_values
    → ((at method : Text) (ps : List Value) → AllGiven ps → node.packs at method ps ≡ true)
    → AllBound contracts
    → IsShared cmd.contract_instance
    → IsReached contracts cmd.contract_instance
    → (rs : List CommandResult) × (run_view_cmd slice libs node args wallets contracts cmd ≡ ok rs)
unfolding run_view_cmd
run_view_cmd-runs slice libs node args wallets contracts cmd known there firm packs all pointer
      (i, points) =
    elim (Bool-cases (is_deployed i)) [
      | inr missing ↦ (not_deployed_yet, ground (arith, points, missing))
      | inl deployed ↦
          let params = cmd.param_spec.param_values in
          let bound = shared-is_bound contracts cmd.contract_instance i all pointer points in
          let answers : (n : ℕ) (vs : List Value)
              → AllGiven vs
              → (a : Answer) × (view_call slice node i.address cmd.method n vs ≡ some a) =
            λ n vs given. (
              view_answer slice (node.contract_tuple n i.address cmd.method vs)
                  (node.contract_call n i.address cmd.method vs),
              ground (arith, packs i.address cmd.method vs given),
            ) in
          let (rs, ran, _) =
            run_all-length libs args wallets cmd.param_spec.param_values known
              (view_call slice node i.address cmd.method)
              (
                λ n a vs sent. answers n vs (
                    replace_references-AllGiven libs args wallets
                      (replace_wallet_placeholders params a) (some vs)
                      (replace_wallet_placeholders-AllFirm params a firm) sent),
                λ n vs sent.
                    answers n vs
                      (replace_references-AllGiven libs args wallets params (some vs) firm sent),
              )
              cmd.matching there in
          (rs, ground (arith, points, deployed, bound, ran))
    ]

-- Encoding the parameters of a method ends without a panic when none of them is a nil *big.Int.
pub record Packs (world : World) : Type 0 where
  pub view :
      (step : ℕ) (at method : Text) (ps : List Value)
      → AllGiven ps
      → (world.node step).packs at method ps ≡ true
  pub write :
      (step : ℕ) (at method : Text) (ps : List Value)
      → AllGiven ps
      → (world.chain step).packs at method ps ≡ true

-- No VIEW or WRITE command has a parameter that is nil or the balance of a wallet.
pub record AreFirm (cmds : Cmds) : Type 0 where
  pub view :
      (n : Text) (c : ViewCmdSpec)
      → lookup n cmds.views ≡ some c
      → AllFirm c.param_spec.param_values
  pub write :
      (n : Text) (c : WriteCmdSpec)
      → lookup n cmds.writes ≡ some c
      → AllFirm c.param_spec.param_values

module _ (slice : List Value → Value) (libs : Libs) (world : World) (config : ConfigSpec)
    (args : List Text) (cmds : Cmds) (g : ℤ) (priced : gas_price_int config ≡ some g)
    (value : (n : Text) (c : WriteCmdSpec)
      → lookup n cmds.writes ≡ some c
      → (ws : Wallets) (denominators : List Text)
      → value_of libs args ws denominators c.value ≢ panic)
    (packs : Packs world) (firm : AreFirm cmds) (start : Session)
    (all : AllBound start.contracts) where
  read-Runs :
      (s : Session) (r : Result Error (List CommandResult)) (rs : List CommandResult)
      → r ≡ ok rs
      → Kept start s
      → Runs (Kept start) (next s, unless_panic r)
  read-Runs s r rs e h = rw e (Kept-trans start s (next s) h (Kept-next s))

  call_in-Runs :
      (s : Session) (n : Text) (c : CallCmdSpec)
      → IsReady start cmds n
      → lookup n cmds.calls ≡ some c
      → Kept start s
      → Runs (Kept start) (call_in slice libs world config args s c)
  call_in-Runs s n c ready e h =
      let r = ReadyCall-kept start s h c (ready.call c e) in
      let (rs, ran, _) =
        run_call_cmd-length libs (world.node s.step) args s.wallets c r.resolvable r.matched in
      read-Runs s (run_call_cmd libs (world.node s.step) args s.wallets c) rs ran h

  view_in-Runs :
      (s : Session) (n : Text) (c : ViewCmdSpec)
      → IsReady start cmds n
      → lookup n cmds.calls ≡ none
      → lookup n cmds.views ≡ some c
      → Kept start s
      → Runs (Kept start) (view_in slice libs world config args s c)
  view_in-Runs s n c ready no_call e h =
      let r = ReadyView-kept start s h c (ready.view c no_call e) in
      let (rs, ran) =
        run_view_cmd-runs slice libs (world.node s.step) args s.wallets s.contracts c r.resolvable
          r.matched (firm.view n c e) (packs.view s.step) (h.bound all) r.pointer r.reached in
      read-Runs s (run_view_cmd slice libs (world.node s.step) args s.wallets s.contracts c) rs ran
        h

  results-Runs :
      (t : Session) (written : Result Error Written)
      → written ≢ panic
      → Kept start t
      → Runs (Kept start) (t, write_results slice libs world config args written)
  results-Runs t panic ne h = absurd (ne refl)
  results-Runs t (err e) ne h = h
  results-Runs t (ok r) ne h = h

  module _ (s : Session) (c : WriteCmdSpec) (name : Text) (w : WalletSpec) where
    abbrev outcome : Outcome
    outcome = run_write_cmd libs (world.chain s.step) config args s.contracts s.wallets c name w

    abbrev after : Session
    after = record { contracts = outcome.contracts; wallets = outcome.wallets; step = suc s.step }

    run_write_cmd-Kept : Kept s after
    unfolding run_write_cmd
    run_write_cmd-Kept = record {
      known = IsKnown-fetched s.wallets name w balance;
      resolvable = IsResolvable-fetched s.wallets name w balance;
      reached = λ p k.
          IsReached-after_deploy libs (world.chain s.step) c.contract_instance
            (refresh libs (world.chain s.step) s.contracts) _ p
            (IsReached-refresh libs (world.chain s.step) s.contracts p k);
      bound = λ k.
          AllBound-after_deploy libs (world.chain s.step) c.contract_instance
            (refresh libs (world.chain s.step) s.contracts) _
            (AllBound-refresh libs (world.chain s.step) s.contracts k);
    }
      where
        balance : Option ℤ
        balance = (world.chain s.step).balance_at (libs.hex_to_address w.address)

  target_of :
      (s : Session) (p : InstancePtr)
      → AllBound s.contracts
      → (is_nil p ≡ true) ⊎ (IsShared p × IsReached s.contracts p)
      → target_bound s.contracts p ≡ true
  target_of s p bound (inl unused) = target_bound-nil s.contracts p unused
  target_of s p bound (inr (shares, there)) = target_bound-shared s.contracts p bound shares there

  write_for-Runs :
      (s : Session) (n : Text) (c : WriteCmdSpec)
      → IsReady start cmds n
      → lookup n cmds.calls ≡ none
      → lookup n cmds.views ≡ none
      → lookup n cmds.writes ≡ some c
      → Kept start s
      → Runs (Kept start) (write_for slice libs world config args s c c.matching)
  write_for-Runs s n c ready no_call no_view e h =
      let r = ReadyWrite-kept start s h c (ready.write c no_call no_view e) in
      let (w, found) = r.known in
      let q : write_for slice libs world config args s c c.matching
          ≡ after_outcome slice libs world config args s (outcome s c r.wallet w) =
        rw r.matched (ground (arith, found)) in
      rw q (
        results-Runs (after s c r.wallet w) (outcome s c r.wallet w).written
          (run_write_cmd-ne-panic libs (world.chain s.step) config args s.contracts s.wallets c
            r.wallet w g priced r.resolvable (firm.write n c e) (packs.write s.step)
            (all_bound-true s.contracts (h.bound all))
            (target_of s c.contract_instance (h.bound all) r.pointer) r.reached (value n c e))
          (Kept-trans start s (after s c r.wallet w) h (run_write_cmd-Kept s c r.wallet w)))

  executor-Keeps :
      Keeps (executor slice libs world config args) cmds (IsReady start cmds) (Kept start)
  unfolding executor
  executor-Keeps = record {
    call = call_in-Runs;
    view = view_in-Runs;
    write = write_for-Runs;
    wait = λ s v h. Kept-trans start s (next s) h (Kept-next s);
  }

  -- No command of a target whose commands are ready panics, whatever the node answers, also after the
  -- changes that the WRITE commands make, and no list of results is empty. The gas price is to parse,
  -- the reading of the values not to panic, the instances are bound, and parameters that are not nil
  -- can be encoded.
  pub run_target_safe :
      (specs : List Text)
      → All (λ spec. IsReady start cmds (name spec)) specs
      → IsClean (run_target (executor slice libs world config args) cmds specs start)
  run_target_safe specs ready =
      run_target-IsClean (executor slice libs world config args) cmds (IsReady start cmds)
        (Kept start) executor-Keeps specs start ready (Kept-refl start)
