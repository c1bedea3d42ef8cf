-- ===== src/Targets.antt =====
-- model/targets.go: targets, which are lists of commands, and their validation.
pub mod Steps
pub mod Found
use mathlib.Core.Option
use ethereum_playbook.Common.{
  ℕ, Bool, not, Option, none, some, List, [], ◌∷◌, Result, ok, err, ◌>>=◌, ◌>>◌, guard, map, length,
}
use ethereum_playbook.Common.Text.{Text, codes, has_suffix, trim_suffix, trim_space}
use ethereum_playbook.Common.Int.{ℤ}
use ethereum_playbook.Common.Maps.{Map, lookup, insert, member}
use ethereum_playbook.Errors.{Error, deferred_by_default, unknown_command, name_not_unique}
use ethereum_playbook.Commands.{
  Env, CallCmdSpec, ViewCmdSpec, WriteCmdSpec, validate_call, validate_view, validate_write,
  count_args_using, count_args_using_write,
}

-- The three command sections of a specification; a section that is missing is empty.
pub record Cmds : Type 0 where
  pub calls : Map CallCmdSpec
  pub views : Map ViewCmdSpec
  pub writes : Map WriteCmdSpec

abbrev pub target_command_defer : Text
target_command_defer = codes "&"

-- TargetCommandSpec.Name
unfoldable pub name : Text → Text
name spec = trim_space (trim_suffix spec target_command_defer)

-- TargetCommandSpec.IsDeferred
unfoldable pub is_deferred : Text → Bool
is_deferred spec = has_suffix spec target_command_defer

-- TargetSpec.CmdNames
unfoldable pub cmd_names : List Text → List Text
cmd_names spec = map name spec

abbrev write_step : Env → Cmds → Text → Option WriteCmdSpec → Result Error Cmds
write_step env cmds n none = err unknown_command
write_step env cmds n (some cmd) = do
  cmd' ← validate_write env n cmd
  ok (record cmds { writes = insert n cmd' cmds.writes })

abbrev view_step : Env → Cmds → Text → Bool → Option ViewCmdSpec → Result Error Cmds
view_step env cmds n deferred none = write_step env cmds n (lookup n cmds.writes)
view_step env cmds n deferred (some cmd) = do
  guard (not deferred) deferred_by_default
  cmd' ← validate_view env cmd
  ok (record cmds { views = insert n cmd' cmds.views })

abbrev call_step : Env → Cmds → Text → Bool → Option CallCmdSpec → Result Error Cmds
call_step env cmds n deferred none = view_step env cmds n deferred (lookup n cmds.views)
call_step env cmds n deferred (some cmd) = do
  guard (not deferred) deferred_by_default
  cmd' ← validate_call env cmd
  ok (record cmds { calls = insert n cmd' cmds.calls })

-- One round of the loop of TargetSpec.Validate. Validation writes to the command, which its section
-- shares.
unfoldable pub validate_command : Env → Cmds → Text → Result Error Cmds
validate_command env cmds spec =
    call_step env cmds (name spec) (is_deferred spec) (lookup (name spec) cmds.calls)

-- TargetSpec.Validate
unfoldable pub validate_target : Env → Cmds → List Text → Result Error Cmds
validate_target env cmds [] = ok cmds
validate_target env cmds (spec ∷ specs) = do
  cmds' ← validate_command env cmds spec
  validate_target env cmds' specs

-- Targets.Validate, with the names that are taken
unfoldable pub validate : Env → Cmds → List Text → Map (List Text) → Result Error (Cmds × List Text)
validate env cmds unique [] = ok (cmds, unique)
validate env cmds unique ((n, target) ∷ rest) = do
  guard (not (member n unique)) name_not_unique
  cmds' ← validate_target env cmds target
  validate env cmds' (n ∷ unique) rest

-- The three command sections as the YAML decoder leaves them: a null entry is a nil pointer, `none`.
pub record CmdPointers : Type 0 where
  pub calls : Map (Option CallCmdSpec)
  pub views : Map (Option ViewCmdSpec)
  pub writes : Map (Option WriteCmdSpec)

-- Spec.CountArgsUsing; `none` is a nil dereference.
unfoldable pub count_args_of : CmdPointers → Text → List ℤ → Option (List ℤ)
count_args_of cmds n set = elim (lookup n cmds.calls) [
  | some c ↦ Option.map (λ d. count_args_using d.param_spec set) c
  | none ↦ elim (lookup n cmds.views) [
    | some c ↦ Option.map (λ d. count_args_using d.param_spec set) c
    | none ↦ elim (lookup n cmds.writes) [
      | some c ↦ Option.map (λ d. count_args_using_write d set) c
      | none ↦ some set
    ]
  ]
]

unfoldable pub count_args_all : CmdPointers → List Text → List ℤ → Option (List ℤ)
count_args_all cmds [] set = some set
count_args_all cmds (spec ∷ specs) set = elim (count_args_of cmds (name spec) set) [
  | none ↦ none
  | some set' ↦ count_args_all cmds specs set'
]

-- TargetSpec.ArgCount
unfoldable pub arg_count : CmdPointers → List Text → Option ℕ
arg_count cmds spec = Option.map length (count_args_all cmds spec [])
