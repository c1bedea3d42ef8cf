-- ===== src/Tests/Sending.antt =====
-- The validation of commands, targets and sections at concrete inputs.
use ethereum_playbook.Common.{
  ℕ, Bool, true, false, ◌&&◌, Option, none, some, List, [], ◌∷◌, Result, ok, err, panic, ◌≡◌, ◌≢◌,
  refl, All,
}
use ethereum_playbook.Common.Text.{
  Text, codes, text_eq, split, has_prefix, has_suffix, trim_suffix, trim_space,
}
use ethereum_playbook.Common.Maps.{lookup, member, insert}
use ethereum_playbook.Common.Sort.{sort_strings}
use ethereum_playbook.Wallets.{get_one}
use ethereum_playbook.Contracts.{no_ptr}
use ethereum_playbook.Params.Refs.{is_wallet_ref}
use ethereum_playbook.Params.Spec
use ethereum_playbook.Params.Spec.{Param, ParamSpec, validate_params}
use ethereum_playbook.Commands.{
  Env, CallCmdSpec, WriteCmdSpec, validate_call, validate_write, match_all, match_one, destination,
  recipient,
}
use ethereum_playbook.Commands.Write.{IsSendable, validate_write-IsSendable}
use ethereum_playbook.Commands.Twice.{validate_write_twice}
use ethereum_playbook.Targets
use ethereum_playbook.Targets.{Cmds, name, is_deferred, validate_command, validate_target}
use ethereum_playbook.Targets.Found.{is_runnable, SameNames, validate_target-runnable}
use ethereum_playbook.Playbook.{validate_cmds, check_commands}
use ethereum_playbook.Playbook.Names.{IsDistinct, taken, check_commands-IsDistinct}
use ethereum_playbook.Tests.{test_libs, two_wallets, alice}

abbrev pub test_env : Env
test_env = record {
  libs = test_libs;
  args = codes "pay" ∷ [];
  wallets = two_wallets;
  contracts = [];
}

abbrev pub no_params : ParamSpec
no_params = record { params = []; param_values = [] }

abbrev pub pay : WriteCmdSpec
pay = record {
  param_spec = no_params;
  description = [];
  wallet = codes "b";
  sticky = [];
  to = codes "alice";
  value = codes "1 ether";
  method = [];
  contract_instance = no_ptr;
  matching = none;
}

abbrev paid : WriteCmdSpec
paid = record pay { sticky = codes "pay"; to = codes "0xa1"; matching = some (codes "alice") }

abbrev pub balance_call : CallCmdSpec
balance_call = record {
  param_spec = no_params;
  description = [];
  wallet = [];
  method = codes "eth_blockNumber";
  matching = [];
}

abbrev pub two_cmds : Cmds
two_cmds = record {
  calls = (codes "block", balance_call) ∷ [];
  views = [];
  writes = (codes "pay", pay) ∷ [];
}

abbrev cmds_after : Cmds
cmds_after = record two_cmds { writes = (codes "pay", paid) ∷ [] }

validate_write-IsSendable_example : IsSendable test_env paid
unfolding validate_write match_one is_wallet_ref get_one lookup text_eq sort_strings
    ethereum_playbook.Common.Sort.matching ethereum_playbook.Common.Sort.text_leb destination
    recipient Spec.validate validate_params
validate_write-IsSendable_example = validate_write-IsSendable test_env (codes "pay") pay paid refl

validate_write_twice_example : validate_write test_env (codes "pay") paid ≢ ok paid
unfolding validate_write text_eq lookup match_one is_wallet_ref get_one sort_strings
    ethereum_playbook.Common.Sort.matching ethereum_playbook.Common.Sort.text_leb destination
    recipient Spec.validate validate_params
validate_write_twice_example =
    validate_write_twice test_env (codes "pay") pay paid paid alice refl refl refl refl refl

validate_target-runnable_example :
    All (λ spec. is_runnable two_cmds spec ≡ true) (codes "block" ∷ codes "pay &" ∷ [])
    × SameNames cmds_after two_cmds
unfolding validate_write match_one is_wallet_ref get_one lookup text_eq sort_strings
    ethereum_playbook.Common.Sort.matching ethereum_playbook.Common.Sort.text_leb destination
    recipient Spec.validate validate_params validate_target validate_command name trim_space
    trim_suffix has_suffix is_deferred has_prefix insert validate_call match_all
    ethereum_playbook.Common.Text.trim_left
validate_target-runnable_example =
    validate_target-runnable test_env two_cmds cmds_after (codes "block" ∷ codes "pay &" ∷ []) refl

check_commands-IsDistinct_example :
    ((codes "all" ∷ codes "pay" ∷ codes "block" ∷ [])
      ≡ taken {V = List Text}
          ((codes "all", codes "pay" ∷ []) ∷ [])
          (taken two_cmds.writes (taken two_cmds.views (taken two_cmds.calls []))))
    × IsDistinct (codes "all" ∷ codes "pay" ∷ codes "block" ∷ [])
unfolding validate_write match_one is_wallet_ref get_one lookup text_eq sort_strings
    ethereum_playbook.Common.Sort.matching ethereum_playbook.Common.Sort.text_leb destination
    recipient Spec.validate validate_params validate_target validate_command name trim_space
    trim_suffix has_suffix is_deferred has_prefix insert validate_call match_all check_commands
    validate_cmds Targets.validate member ethereum_playbook.Common.Text.trim_left
check_commands-IsDistinct_example =
    check_commands-IsDistinct test_env (codes "all") two_cmds cmds_after
      ((codes "all", codes "pay" ∷ []) ∷ []) (codes "all" ∷ codes "pay" ∷ codes "block" ∷ []) refl
