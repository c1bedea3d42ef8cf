-- ===== src/Main/Register.antt =====
-- main.go, registerCommands: the subcommands of the command line, from the sections of a
-- specification.
pub mod Order
use mathlib.Core.Option
use ethereum_playbook.Common.{
  ℕ, zero, suc, Bool, Option, none, some, List, [], ◌∷◌, ◌++◌, length, if◌then◌else◌, is_empty,
}
use ethereum_playbook.Common.Text.{Text, codes}
use ethereum_playbook.Common.Decimal.{show_ℕ}
use ethereum_playbook.Common.Maps.{Map, lookup, keys}
use ethereum_playbook.Common.Sort.{sort_strings}
use ethereum_playbook.Commands
use ethereum_playbook.Commands.{CallCmdSpec, ViewCmdSpec, WriteCmdSpec, arg_count_write}
use ethereum_playbook.Targets
use ethereum_playbook.Targets.{CmdPointers, cmd_names}

-- What a subcommand does: newTarget or newCommand.
pub data Action : Type 0 where
  runs_target runs_command : Action

-- The call app.Command(name, desc, init), with the names and descriptions of the arguments that `init`
-- declares.
pub record Registration : Type 0 where
  pub name : Text
  pub description : Text
  pub action : Action
  pub args : List (Text × Text)

-- cmd.StringArg("ARG%d", "", "... argument $%d"), from the i-th argument on
unfoldable pub string_args : Text → ℕ → ℕ → List (Text × Text)
string_args what i zero = []
string_args what i (suc n) =
    (codes "ARG" ++ show_ℕ (suc i), what ++ codes " argument $" ++ show_ℕ (suc i))
    ∷ string_args what (suc i) n

abbrev pub accepts : ℕ → Text
accepts n = codes ", accepts " ++ show_ℕ n ++ codes " args"

abbrev pub new_command : Text → Text → ℕ → Registration
new_command name description n = record {
  name = name;
  description = description;
  action = runs_command;
  args = string_args (codes "Command") 0 n;
}

abbrev pub new_target : Text → Text → ℕ → Registration
new_target name description n = record {
  name = name;
  description = description;
  action = runs_target;
  args = string_args (codes "Target") 0 n;
}

abbrev generic : Text → Text → ℕ → Text
generic given kind n =
    if is_empty given then codes "Generic " ++ kind ++ codes " command" ++ accepts n else given

abbrev pub target_entry : CmdPointers → Text → List Text → Option Registration
target_entry cmds name target =
    Option.map
      (λ n.
        new_target name
          (codes "Target with "
            ++ show_ℕ (length (cmd_names target))
            ++ codes " commands"
            ++ accepts n)
          n)
      (Targets.arg_count cmds target)

-- The description of a nil command is a nil dereference, `none`.
abbrev pub call_entry : Text → Option CallCmdSpec → Option Registration
call_entry name none = none
call_entry name (some c) = some (
    new_command name (generic c.description (codes "CALL") (Commands.arg_count c.param_spec))
      (Commands.arg_count c.param_spec))

abbrev pub view_entry : Text → Option ViewCmdSpec → Option Registration
view_entry name none = none
view_entry name (some c) = some (
    new_command name (generic c.description (codes "VIEW") (Commands.arg_count c.param_spec))
      (Commands.arg_count c.param_spec))

abbrev pub write_entry : Text → Option WriteCmdSpec → Option Registration
write_entry name none = none
write_entry name (some c) = some (
    new_command name (generic c.description (codes "WRITE") (arg_count_write c))
      (arg_count_write c))

abbrev pub prepend : List Registration → Option (List Registration) → Option (List Registration)
prepend rs none = none
prepend rs (some more) = some (rs ++ more)

-- `takes` tells the names that app.Command of the command line library does not panic on.
module _ (takes : Text → Bool) where
  module _ {ℓ} {V : Type ℓ} (entry : Text → V → Option Registration) where
    abbrev registered :
        Text → Option Registration → Option (List Registration) → Option (List Registration)
    registered name none rest = none
    registered name (some r) rest = if takes name then prepend (r ∷ []) rest else none

    -- A name that the section does not have is a nil dereference as well.
    abbrev with_entry : Text → Option V → Option (List Registration) → Option (List Registration)
    with_entry name none rest = none
    with_entry name (some v) rest = registered name (entry name v) rest

    -- One loop of registerCommands over the sorted names of a section.
    unfoldable pub register_names : Map V → List Text → Option (List Registration)
    register_names m [] = some []
    register_names m (name ∷ names) = with_entry name (lookup name m) (register_names m names)

    unfoldable pub register_section : Map V → Option (List Registration)
    register_section m = register_names m (sort_strings (keys m))

abbrev append_all : List (Option (List Registration)) → Option (List Registration)
append_all [] = some []
append_all (none ∷ rest) = none
append_all (some rs ∷ rest) = prepend rs (append_all rest)

-- registerCommands, before any validation
unfoldable pub register_commands :
    (Text → Bool) → CmdPointers → Map (List Text) → Option (List Registration)
register_commands takes cmds targets = append_all (
    register_section takes (target_entry cmds) targets
    ∷ register_section takes call_entry cmds.calls
    ∷ register_section takes view_entry cmds.views
    ∷ register_section takes write_entry cmds.writes
    ∷ [])
