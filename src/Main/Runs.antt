-- ===== src/Main/Runs.antt =====
-- The subcommand of a target prints its run to the end.
use ethereum_playbook.Common.{map, some, List, Result, ◌≡◌}
use ethereum_playbook.Common.Text.{Text}
use ethereum_playbook.Errors.{Error}
use ethereum_playbook.Extern.{Libs}
use ethereum_playbook.Values.{Value}
use ethereum_playbook.Context.{AppContext}
use ethereum_playbook.Wallets.{Wallets}
use ethereum_playbook.Wallets.Keys.{Disk, KeyCache, present, validate_wallets}
use ethereum_playbook.Playbook
use ethereum_playbook.Playbook.{Spec, cmds_of}
use ethereum_playbook.Playbook.Checked.{env_of}
use ethereum_playbook.Executor.Target.{Sent, run_target}
use ethereum_playbook.Executor.Session.{World, executor}
use ethereum_playbook.Executor.Session.Accepted.{start}
use ethereum_playbook.Prettify.{Format}
use ethereum_playbook.Main.Export.{Json, Printer}
use ethereum_playbook.Main.{Host, Flags, config_or_default}

module _ (host : Host) (libs : Libs) (disk : Disk) {K : Type 0} (cache : KeyCache K) (fresh : K)
    (flags : Flags) where
  abbrev checked_wallets : Wallets → Result Error Wallets
  checked_wallets ws = (validate_wallets libs disk cache (map present ws) fresh).0

  module _ (slice : List Value → Value) (world : World) (format : Format) (printer : Printer)
      (marshals : (padding : Text) (v : Json)
        → (s : Text) × (printer.marshal padding v ≡ some s)) where
    -- The run of a target of a validated specification, from its first command.
    abbrev pub run_of : Spec → AppContext → List Text → Sent
    run_of spec ctx specs =
        run_target
          (executor slice libs world (config_or_default libs spec.config) ctx.app_command_args)
          (cmds_of spec) specs (start (env_of libs ctx spec) 0)
