-- ===== src/Main.antt =====
-- main.go: the command line. A specification is loaded, its subcommands are registered, and the one
-- that is chosen validates it, makes an executor and prints what the run sends.
pub mod Register
pub mod Export
pub mod Load
pub mod Runs
use ethereum_playbook.Common.{
  map, Bool, not, ◌||◌, Option, none, some, List, [], Result, ok, err, panic, ◌>>=◌, ◌>>◌, guard,
  or_err,
}
use ethereum_playbook.Common.Text.{Text}
use ethereum_playbook.Errors.{
  Error, unreadable_spec, bad_yaml, no_abs_path, no_compiler, command_not_found, target_not_found,
}
use ethereum_playbook.Extern.{Libs}
use ethereum_playbook.Values.{Value}
use ethereum_playbook.Context.{AppContext, new_app_context, app_args}
use ethereum_playbook.Config.{ConfigSpec, default_config}
use ethereum_playbook.Wallets.{Wallets}
use ethereum_playbook.Wallets.Keys.{Disk, KeyCache, present, validate_wallets}
use ethereum_playbook.Contracts.{use_solc}
use ethereum_playbook.Playbook
use ethereum_playbook.Playbook.{Spec, entries, cmds_of}
use ethereum_playbook.Executor.{CommandResult}
use ethereum_playbook.Executor.Target.{Sent}
use ethereum_playbook.Executor.Session.{World, Session, new_executor, run_command, run_named_target}
use ethereum_playbook.Prettify.{Format}
use ethereum_playbook.Main.Register.{Action, runs_target, runs_command}
use ethereum_playbook.Main.Export.{Output, Printer, export_results_text, print_sent}

-- The host: files, the YAML decoder, which leaves the pointer nil at an empty document, and solc.
pub record Host : Type 0 where
  pub read_file : Text → Option Text
  pub unmarshal : Text → Option (Option Spec)
  pub abs : Text → Option Text
  pub dir : Text → Text
  pub look_path : Text → Option Text
  pub is_sol_compiler : Text → Bool

-- The flags -f, -s and -g.
pub record Flags : Type 0 where
  pub spec_path : Text
  pub solc_path : Text
  pub node_group : Text

abbrev pub config_or_default : Libs → Option ConfigSpec → ConfigSpec
config_or_default libs none = default_config libs
config_or_default libs (some c) = c

abbrev pub with_dir : Libs → Text → Option Spec → Result Error Spec
with_dir libs dir none = panic
with_dir libs dir (some spec) =
    let config = config_or_default libs spec.config in
    ok (record spec { config = some (record config { spec_dir = dir }) })

-- loadSpec. `err` is its answer `false`; reading a field of a nil specification panics.
unfoldable pub load_spec : Host → Libs → Text → Result Error Spec
load_spec host libs path = do
  data_read ← or_err unreadable_spec (host.read_file path)
  spec ← or_err bad_yaml (host.unmarshal data_read)
  abs ← or_err no_abs_path (host.abs path)
  with_dir libs (host.dir abs) spec

abbrev path_or : Text → Option Text → Text
path_or given none = given
path_or given (some path) = path

-- The directory of a specification that loadSpec gave; its configuration is never nil.
abbrev pub dir_of : Option ConfigSpec → Result Error Text
dir_of none = panic
dir_of (some c) = ok c.spec_dir

module _ (host : Host) (libs : Libs) (disk : Disk) {K : Type 0} (cache : KeyCache K) (fresh : K)
    (flags : Flags) where
  -- validateSpec, with the specification that validation has written to. `err` ends the program.
  unfoldable pub validate_spec : Spec → Text → List Text → Result Error (AppContext × Spec)
  validate_spec spec command args = do
    guard
        (not (use_solc (entries spec.contracts))
          || host.is_sol_compiler (path_or flags.solc_path (host.look_path flags.solc_path)))
        no_compiler
    dir ← dir_of spec.config
    let ctx = new_app_context command args flags.node_group dir
    spec' ←
        Playbook.validate libs (λ ws. (validate_wallets libs disk cache (map present ws) fresh).0)
          ctx spec
    ok (ctx, spec')

  module _ (slice : List Value → Value) (world : World) (format : Format) (printer : Printer) where
    -- RunCommand's answer: `none` outside is `false`, and `none` inside a panic.
    abbrev export_command : Option (Session × Option (List CommandResult)) → Result Error Output
    export_command none = err command_not_found
    export_command (some (s, none)) = panic
    export_command (some (s, some results)) =
        ok (export_results_text libs format printer s.wallets [] results)

    abbrev export_target : Wallets → Option Sent → Result Error Output
    export_target wallets none = err target_not_found
    export_target wallets (some sent) = ok (print_sent libs format printer wallets sent)

    abbrev pub perform : Action → Spec → Text → List Text → Session → Result Error Output
    perform runs_command spec name args s = export_command (
        run_command slice libs world (config_or_default libs spec.config) args (cmds_of spec) name
          s)
    perform runs_target spec name args s = export_target (entries spec.wallets) (
        run_named_target slice libs world (config_or_default libs spec.config) args (cmds_of spec)
          (entries spec.targets) name s)

    -- The functions cmd.Action of newCommand and newTarget.
    unfoldable pub run_action : Action → Spec → Text → List Text → Result Error Output
    run_action action spec name given = do
      (ctx, spec') ← validate_spec spec name (app_args name given)
      (client, session) ←
          new_executor libs (entries spec'.inventory) ctx.node_group (entries spec'.contracts)
            (entries spec'.wallets)
      perform action spec' name ctx.app_command_args session
