-- ===== src/Executor/Target.antt =====
-- executor/exec_target.go, runTarget: the commands of a target in their order.
pub mod Order
pub mod Clean
use ethereum_playbook.Common.{Bool, Option, none, some, List, [], ◌∷◌, if◌then◌else◌}
use ethereum_playbook.Common.Text.{Text}
use ethereum_playbook.Common.Maps.{lookup}
use ethereum_playbook.Errors.{Error}
use ethereum_playbook.Values.{Value}
use ethereum_playbook.Commands.{CallCmdSpec, ViewCmdSpec, WriteCmdSpec}
use ethereum_playbook.Targets.{Cmds, name, is_deferred}
use ethereum_playbook.Executor.{CommandResult, set_name}

-- The runs of single commands over the state that they share: `none` is a panic. `await` is the wait
-- for a transaction, with the error that ends it.
pub record Runner (S : Type 0) : Type 0 where
  pub run_call : S → CallCmdSpec → S × Option (List CommandResult)
  pub run_view : S → ViewCmdSpec → S × Option (List CommandResult)
  pub run_write : S → WriteCmdSpec → S × Option (List CommandResult)
  pub await : S → Value → S × Option Error

-- What runTarget sends over the channel until it returns, or until the program panics.
pub data Sent : Type 0 where
  stopped panicked : Sent
  sends : List CommandResult → Sent → Sent

module _ {S : Type 0} (runner : Runner S) where
  abbrev pub after_read : Text → (S → Sent) → S × Option (List CommandResult) → Sent
  after_read n later (s, none) = panicked
  after_read n later (s, some results) = sends (set_name results n) (later s)

  abbrev pub after_await : (S → Sent) → S × Option Error → Sent
  after_await later (s, none) = later s
  after_await later (s, some e) = stopped

  -- What follows a WRITE command: nothing, if it failed or the wait for it did.
  abbrev pub follow : Bool → (S → Sent) → S → List CommandResult → Sent
  follow deferred later s [] = stopped
  follow deferred later s (r ∷ rs) = elim r.error [
    | some e ↦ stopped
    | none ↦ if deferred then later s else after_await later (runner.await s r.result)
  ]

  abbrev pub after_write : Text → Bool → (S → Sent) → S × Option (List CommandResult) → Sent
  after_write n deferred later (s, none) = panicked
  after_write n deferred later (s, some results) =
      sends (set_name results n) (follow deferred later s results)

  module _ (cmds : Cmds) where
    -- runTarget. A name that no section has is skipped.
    unfoldable pub run_target : List Text → S → Sent
    run_target [] s = stopped
    run_target (spec ∷ specs) s = elim (lookup (name spec) cmds.calls) [
      | some c ↦ after_read (name spec) (run_target specs) (runner.run_call s c)
      | none ↦ elim (lookup (name spec) cmds.views) [
        | some c ↦ after_read (name spec) (run_target specs) (runner.run_view s c)
        | none ↦ elim (lookup (name spec) cmds.writes) [
          | none ↦ run_target specs s
          | some c ↦
              after_write (name spec) (is_deferred spec) (run_target specs) (runner.run_write s c)
        ]
      ]
    ]
