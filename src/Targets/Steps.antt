-- ===== src/Targets/Steps.antt =====
-- One round of the loop of TargetSpec.Validate: which command it validates, and what it writes.
use ethereum_playbook.Common.{
  Bool, false, none, some, ok, ◌>>=◌, >>=-eq-ok, ◌≡◌, arith, Bool-cases, Option-cases, inl, inr,
}
use ethereum_playbook.Common.Text.{Text}
use ethereum_playbook.Common.Maps.{lookup, insert}
use ethereum_playbook.Commands.{
  Env, CallCmdSpec, ViewCmdSpec, WriteCmdSpec, validate_call, validate_view, validate_write,
}
use ethereum_playbook.Targets.{Cmds, name, is_deferred, validate_command}

-- The command of the first section that has the name is validated and written back; the ones that are
-- not deferred by `&` may be in any section.
pub data Validated (env : Env) (cmds cmds' : Cmds) (n : Text) (deferred : Bool) : Type 0 where
  as_call :
      (c c' : CallCmdSpec)
      → deferred ≡ false
      → lookup n cmds.calls ≡ some c
      → validate_call env c ≡ ok c'
      → cmds' ≡ record cmds { calls = insert n c' cmds.calls }
      → Validated env cmds cmds' n deferred
  as_view :
      (c c' : ViewCmdSpec)
      → deferred ≡ false
      → lookup n cmds.calls ≡ none
      → lookup n cmds.views ≡ some c
      → validate_view env c ≡ ok c'
      → cmds' ≡ record cmds { views = insert n c' cmds.views }
      → Validated env cmds cmds' n deferred
  as_write :
      (c c' : WriteCmdSpec)
      → lookup n cmds.calls ≡ none
      → lookup n cmds.views ≡ none
      → lookup n cmds.writes ≡ some c
      → validate_write env n c ≡ ok c'
      → cmds' ≡ record cmds { writes = insert n c' cmds.writes }
      → Validated env cmds cmds' n deferred

pub validate_command-Validated :
    (env : Env) (cmds cmds' : Cmds) (spec : Text)
    → validate_command env cmds spec ≡ ok cmds'
    → Validated env cmds cmds' (name spec) (is_deferred spec)
unfolding validate_command
validate_command-Validated env cmds cmds' spec h =
    let n = name spec in
    elim (Option-cases (lookup n cmds.calls)) [
      | inr (c, found) ↦ elim (Bool-cases (is_deferred spec)) [
        | inl d ↦ absurd (ground (arith, d, found))
        | inr now ↦
            let write : CallCmdSpec → Cmds = λ c'. record cmds { calls = insert n c' cmds.calls } in
            let bound : (validate_call env c >>= λ c'. ok (write c')) ≡ ok cmds' =
              ground (arith, now, found) in
            let (c', valid, done) = >>=-eq-ok (validate_call env c) (λ c'. ok (write c')) bound in
            as_call c c' now found valid (ground arith)
      ]
      | inl no_call ↦ elim (Option-cases (lookup n cmds.views)) [
        | inr (c, found) ↦ elim (Bool-cases (is_deferred spec)) [
          | inl d ↦ absurd (ground (arith, d, found, no_call))
          | inr now ↦
              let write : ViewCmdSpec → Cmds =
                λ c'. record cmds { views = insert n c' cmds.views } in
              let bound : (validate_view env c >>= λ c'. ok (write c')) ≡ ok cmds' =
                ground (arith, now, found, no_call) in
              let (c', valid, done) = >>=-eq-ok (validate_view env c) (λ c'. ok (write c')) bound in
              as_view c c' now no_call found valid (ground arith)
        ]
        | inl no_view ↦ elim (Option-cases (lookup n cmds.writes)) [
          | inl missing ↦ absurd (ground (arith, no_call, no_view, missing))
          | inr (c, found) ↦
              let write : WriteCmdSpec → Cmds =
                λ c'. record cmds { writes = insert n c' cmds.writes } in
              let bound : (validate_write env n c >>= λ c'. ok (write c')) ≡ ok cmds' =
                ground (arith, found, no_call, no_view) in
              let (c', valid, done) =
                >>=-eq-ok (validate_write env n c) (λ c'. ok (write c')) bound in
              as_write c c' no_call no_view found valid (ground arith)
        ]
      ]
    ]
