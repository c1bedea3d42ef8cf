-- ===== src/Playbook.antt =====
-- model/spec.go: the specification, and the order in which its sections are validated.
pub mod Names
pub mod Checked
use ethereum_playbook.Common.{
  Bool, true, false, not, ◌&&◌, Option, none, some, List, [], ◌∷◌, Result, ok, err, ◌>>=◌, ◌>>◌,
  guard, is_empty, if◌then◌else◌,
}
use ethereum_playbook.Common.Text.{Text, text_eq}
use ethereum_playbook.Common.Maps.{Map, member}
use ethereum_playbook.Errors.{Error, name_not_unique, no_inventory, no_commands, wallets_required}
use ethereum_playbook.Extern.{Libs}
use ethereum_playbook.Context.{AppContext}
use ethereum_playbook.Config
use ethereum_playbook.Config.{ConfigSpec, default_config}
use ethereum_playbook.Inventory
use ethereum_playbook.Inventory.{Inventory}
use ethereum_playbook.Wallets.{Wallets}
use ethereum_playbook.Contracts
use ethereum_playbook.Contracts.{Contracts}
use ethereum_playbook.Commands.{
  Env, CallCmdSpec, ViewCmdSpec, WriteCmdSpec, validate_call, validate_view, validate_write,
}
use ethereum_playbook.Targets
use ethereum_playbook.Targets.{Cmds}

-- A section that the YAML does not give is a nil map.
pub record Spec : Type 0 where
  pub config : Option ConfigSpec
  pub inventory : Option Inventory
  pub wallets : Option Wallets
  pub contracts : Option Contracts
  pub targets : Option (Map (List Text))
  pub view_cmds : Option (Map ViewCmdSpec)
  pub write_cmds : Option (Map WriteCmdSpec)
  pub call_cmds : Option (Map CallCmdSpec)

abbrev pub entries {ℓ} : {V : Type ℓ} → Option (Map V) → Map V
entries none = []
entries (some m) = m

abbrev pub is_nil_map {ℓ} : {V : Type ℓ} → Option (Map V) → Bool
is_nil_map none = true
is_nil_map (some m) = false

-- The loop over a command section: every name must be new, and only the
-- command that is run is validated.
module _ {C : Type 0} (validate_one : Text → C → Result Error C) (app_command : Text) where
  unfoldable pub validate_cmds : List Text → Map C → Result Error (Map C × List Text)
  validate_cmds unique [] = ok ([], unique)
  validate_cmds unique ((name, cmd) ∷ rest) = do
    guard (not (member name unique)) name_not_unique
    cmd' ← (if text_eq app_command name then validate_one name cmd else ok cmd)
    (rest', unique') ← validate_cmds (name ∷ unique) rest
    ok ((name, cmd') ∷ rest', unique')

-- CallCmds.Validate, ViewCmds.Validate and WriteCmds.Validate, with the names that are taken
abbrev pub validate_calls :
    Env → Text → List Text → Map CallCmdSpec → Result Error (Map CallCmdSpec × List Text)
validate_calls env app unique cmds = validate_cmds (λ n c. validate_call env c) app unique cmds

abbrev pub validate_views :
    Env → Text → List Text → Map ViewCmdSpec → Result Error (Map ViewCmdSpec × List Text)
validate_views env app unique cmds = validate_cmds (λ n c. validate_view env c) app unique cmds

abbrev pub validate_writes :
    Env → Text → List Text → Map WriteCmdSpec → Result Error (Map WriteCmdSpec × List Text)
validate_writes env app unique cmds = validate_cmds (λ n c. validate_write env n c) app unique cmds

-- The configuration: the defaults where none is given.
abbrev pub config_of : Libs → Option ConfigSpec → ConfigSpec
config_of libs none = default_config libs
config_of libs (some c) = (Config.validate libs c).config

abbrev pub check_inventory : Libs → AppContext → Option Inventory → Result Error (Option Inventory)
check_inventory libs ctx none = if is_empty ctx.app_command then ok none else err no_inventory
check_inventory libs ctx (some inv) =
    if is_empty ctx.app_command
    then ok (some inv)
    else (do inv' ← Inventory.validate libs ctx.node_group inv; ok (some inv'))

abbrev pub check_contracts : Libs → AppContext → Option Contracts → Result Error (Option Contracts)
check_contracts libs ctx none = ok none
check_contracts libs ctx (some cs) = do cs' ← Contracts.validate libs ctx.spec_dir cs; ok (some cs')

-- The command sections and the targets, which share one set of names.
unfoldable pub check_commands :
    Env → Text → Cmds → Map (List Text) → Result Error (Cmds × List Text)
check_commands env app cmds targets = do
  (calls, u1) ← validate_calls env app [] cmds.calls
  (views, u2) ← validate_views env app u1 cmds.views
  (writes, u3) ← validate_writes env app u2 cmds.writes
  Targets.validate env (record { calls = calls; views = views; writes = writes }) u3 targets

abbrev put_back {ℓ} : {V : Type ℓ} → Option (Map V) → Map V → Option (Map V)
put_back none m = none
put_back (some _) m = some m

-- The three command sections of a specification.
abbrev pub cmds_of : Spec → Cmds
cmds_of spec = record {
  calls = entries spec.call_cmds;
  views = entries spec.view_cmds;
  writes = entries spec.write_cmds;
}

-- Spec.Validate. `check_wallets` is Wallets.Validate, with the key cache that it fills.
unfoldable pub validate :
    Libs → (Wallets → Result Error Wallets) → AppContext → Spec → Result Error Spec
validate libs check_wallets ctx spec = do
  inventory ← check_inventory libs ctx spec.inventory
  guard (not (is_nil_map spec.view_cmds && is_nil_map spec.write_cmds && is_nil_map spec.call_cmds))
      no_commands
  wallets ← elim spec.wallets [
    | some ws ↦ (do ws' ← check_wallets ws; ok (some ws'))
    | none ↦
        if is_nil_map spec.write_cmds && is_nil_map spec.call_cmds
        then ok none
        else err wallets_required
  ]
  contracts ← check_contracts libs ctx spec.contracts
  (cmds, names) ←
      check_commands
        (record {
          libs = libs;
          args = ctx.app_command_args;
          wallets = entries wallets;
          contracts = entries contracts;
        })
        ctx.app_command (cmds_of spec) (entries spec.targets)
  ok (record spec {
    config = some (config_of libs spec.config);
    inventory = inventory;
    wallets = wallets;
    contracts = contracts;
    call_cmds = put_back spec.call_cmds cmds.calls;
    view_cmds = put_back spec.view_cmds cmds.views;
    write_cmds = put_back spec.write_cmds cmds.writes;
  })
