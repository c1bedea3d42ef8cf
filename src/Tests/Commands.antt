-- ===== src/Tests/Commands.antt =====
-- The subcommand of a target at a concrete specification.
use ethereum_playbook.Common.{ℕ, Bool, true, false, none, some, [], ◌∷◌, refl, arith}
use ethereum_playbook.Common.Text.{Text, codes}
use ethereum_playbook.Values.{nil}
use ethereum_playbook.Context.{AppContext}
use ethereum_playbook.Config.{default_config}
use ethereum_playbook.Wallets.{Wallets}
use ethereum_playbook.Playbook.{Spec}
use ethereum_playbook.Executor.Target.{Sent}
use ethereum_playbook.Main.{Flags}
use ethereum_playbook.Main.Runs.{run_of}
use ethereum_playbook.Tests.{test_libs}
use ethereum_playbook.Tests.Sending.{balance_call}
use ethereum_playbook.Tests.Keys.{test_disk, opening}
use ethereum_playbook.Tests.Printing.{empty_host, test_format, test_printer}
use ethereum_playbook.Tests.Session.{test_world}

abbrev test_flags : Flags
test_flags = record { spec_path = []; solc_path = []; node_group = codes "genesis" }

-- One CALL command in one target, and one node, which answers.
abbrev block_spec : Spec
block_spec = record {
  config = some (default_config test_libs);
  inventory = some ((codes "genesis", codes "live" ∷ []) ∷ []);
  wallets = some [];
  contracts = none;
  targets = some ((codes "all", codes "block" ∷ []) ∷ []);
  view_cmds = none;
  write_cmds = none;
  call_cmds = some ((codes "block", balance_call) ∷ []);
}

abbrev block_context : AppContext
block_context = record {
  app_command = codes "all";
  app_command_args = codes "all" ∷ [];
  node_group = codes "genesis";
  spec_dir = [];
}

abbrev block_run : Sent
block_run =
    run_of empty_host test_libs test_disk opening [] test_flags (λ vs. nil) test_world test_format
      test_printer (λ padding v. (codes "json", refl)) block_spec block_context (codes "block" ∷ [])
