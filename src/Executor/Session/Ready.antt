-- ===== src/Executor/Session/Ready.antt =====
-- When a command is ready to run, and changes of the state that keep it so.
use ethereum_playbook.Common.{true, none, some, ◌≡◌, ◌⊎◌, inl, inr, All, All-imp, is_empty}
use ethereum_playbook.Common.Text.{Text}
use ethereum_playbook.Common.Maps.{lookup}
use ethereum_playbook.Values.{Value}
use ethereum_playbook.Contracts.{InstancePtr}
use ethereum_playbook.Commands.{CallCmdSpec, ViewCmdSpec, WriteCmdSpec, is_nil}
use ethereum_playbook.Targets.{Cmds}
use ethereum_playbook.Params.Spec.Outcomes.{IsResolvable}
use ethereum_playbook.Executor.Count.{IsKnown}
use ethereum_playbook.Contracts.Bound.{AllBound}
use ethereum_playbook.Executor.Send.Bound.{IsShared}
use ethereum_playbook.Executor.Send.Keep.{IsReached}
use ethereum_playbook.Executor.Session.{Session, next}

-- What validation leaves for a CALL command, a VIEW command and a WRITE command.
pub record ReadyCall (s : Session) (c : CallCmdSpec) : Type 0 where
  pub resolvable : All (IsResolvable s.wallets) c.param_spec.param_values
  pub matched : All (IsKnown s.wallets) c.matching

pub record ReadyView (s : Session) (c : ViewCmdSpec) : Type 0 where
  pub resolvable : All (IsResolvable s.wallets) c.param_spec.param_values
  pub matched : All (IsKnown s.wallets) c.matching
  pub reached : IsReached s.contracts c.contract_instance
  pub pointer : IsShared c.contract_instance

pub record ReadyWrite (s : Session) (c : WriteCmdSpec) : Type 0 where
  pub resolvable : All (IsResolvable s.wallets) c.param_spec.param_values
  pub wallet : Text
  pub matched : c.matching ≡ some wallet
  pub known : IsKnown s.wallets wallet
  pub reached : is_empty c.to ≡ true → IsReached s.contracts c.contract_instance
  pub pointer :
      (is_nil c.contract_instance ≡ true)
      ⊎ (IsShared c.contract_instance × IsReached s.contracts c.contract_instance)

-- The command that a name runs is ready: the CALL command of that name, the VIEW command if there is no
-- such CALL command, and the WRITE command if there is neither.
pub record IsReady (s : Session) (cmds : Cmds) (n : Text) : Type 0 where
  pub call : (c : CallCmdSpec) → lookup n cmds.calls ≡ some c → ReadyCall s c
  pub view :
      (c : ViewCmdSpec) → lookup n cmds.calls ≡ none → lookup n cmds.views ≡ some c → ReadyView s c
  pub write :
      (c : WriteCmdSpec)
      → lookup n cmds.calls ≡ none
      → lookup n cmds.views ≡ none
      → lookup n cmds.writes ≡ some c
      → ReadyWrite s c

-- A change that keeps wallets known, references resolvable, and instances reached and bound.
pub record Kept (s t : Session) : Type 0 where
  pub known : (n : Text) → IsKnown s.wallets n → IsKnown t.wallets n
  pub resolvable : (v : Value) → IsResolvable s.wallets v → IsResolvable t.wallets v
  pub reached : (p : InstancePtr) → IsReached s.contracts p → IsReached t.contracts p
  pub bound : AllBound s.contracts → AllBound t.contracts

pub Kept-refl : (s : Session) → Kept s s
Kept-refl s = record { known = λ n h. h; resolvable = λ v h. h; reached = λ p h. h; bound = λ h. h }

pub Kept-next : (s : Session) → Kept s (next s)
Kept-next s = record { known = λ n h. h; resolvable = λ v h. h; reached = λ p h. h; bound = λ h. h }

pub Kept-trans : (r s t : Session) → Kept r s → Kept s t → Kept r t
Kept-trans r s t h k = record {
  known = λ n x. k.known n (h.known n x);
  resolvable = λ v x. k.resolvable v (h.resolvable v x);
  reached = λ p x. k.reached p (h.reached p x);
  bound = λ x. k.bound (h.bound x);
}

module _ (s t : Session) (kept : Kept s t) where
  pub ReadyCall-kept : (c : CallCmdSpec) → ReadyCall s c → ReadyCall t c
  ReadyCall-kept c r = record {
    resolvable = All-imp c.param_spec.param_values kept.resolvable r.resolvable;
    matched = All-imp c.matching kept.known r.matched;
  }

  pub ReadyView-kept : (c : ViewCmdSpec) → ReadyView s c → ReadyView t c
  ReadyView-kept c r = record {
    resolvable = All-imp c.param_spec.param_values kept.resolvable r.resolvable;
    matched = All-imp c.matching kept.known r.matched;
    reached = kept.reached c.contract_instance r.reached;
    pointer = r.pointer;
  }

  pub ReadyWrite-kept : (c : WriteCmdSpec) → ReadyWrite s c → ReadyWrite t c
  ReadyWrite-kept c r = record {
    resolvable = All-imp c.param_spec.param_values kept.resolvable r.resolvable;
    wallet = r.wallet;
    matched = r.matched;
    known = kept.known r.wallet r.known;
    reached = λ empty. kept.reached c.contract_instance (r.reached empty);
    pointer = elim r.pointer [
      | inl unused ↦ inl unused
      | inr (shares, there) ↦ inr (shares, kept.reached c.contract_instance there)
    ];
  }
