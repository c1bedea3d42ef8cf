-- ===== src/Executor/Session.antt =====
-- executor/executor.go: New, RunTarget and RunCommand, and the runs of single commands over the state
-- that they share.
pub mod Ready
pub mod Safe
pub mod Accepted
use ethereum_playbook.Common.{
  ℕ, suc, Option, none, some, List, [], ◌∷◌, ◌++◌, Result, ok, err, panic, ◌>>=◌,
}
use ethereum_playbook.Common.Text.{Text}
use ethereum_playbook.Common.Maps.{Map, lookup}
use ethereum_playbook.Errors.{Error, timed_out}
use ethereum_playbook.Extern.{Libs}
use ethereum_playbook.Values.{Value, nil, text}
use ethereum_playbook.Wallets.{Wallets}
use ethereum_playbook.Config.{ConfigSpec}
use ethereum_playbook.Contracts.{Contracts}
use ethereum_playbook.Inventory.{Inventory, get_client}
use ethereum_playbook.Commands.{CallCmdSpec, ViewCmdSpec, WriteCmdSpec}
use ethereum_playbook.Targets.{Cmds}
use ethereum_playbook.Executor.{CommandResult, Node, run_call_cmd, run_view_cmd}
use ethereum_playbook.Executor.Await.{Lookup, Event, done, await_tx}
use ethereum_playbook.Executor.Chain.{Chain, Written}
use ethereum_playbook.Executor.Send.{Outcome, run_write_cmd}
use ethereum_playbook.Executor.Target.{Runner, Sent, run_target}

-- What the node answers at each step of a run, what the waits meet before their timeout, and the texts
-- of errors.
pub record World : Type 0 where
  pub node : ℕ → Node
  pub chain : ℕ → Chain
  pub first : ℕ → Lookup
  pub events : ℕ → List Event
  pub message : Error → Text

-- What commands share: the sections that they write to, and how many steps the run has made.
pub record Session : Type 0 where
  pub contracts : Contracts
  pub wallets : Wallets
  pub step : ℕ

abbrev pub next : Session → Session
next s = record s { step = suc s.step }

-- CALL and VIEW runs give results and no error of their own: what is left is a panic.
abbrev pub unless_panic : {A : Type 0} → Result Error A → Option A
unless_panic (ok a) = some a
unless_panic _ = none

-- awaitTx under context.WithTimeout, whose end is the last event; it never panics.
abbrev pub failure : Option (Result Error (Unit {0})) → Option Error
failure none = some timed_out
failure (some panic) = some timed_out
failure (some (err e)) = some e
failure (some (ok _)) = none

module _ (slice : List Value → Value) (libs : Libs) (world : World) (config : ConfigSpec)
    (args : List Text) where
  abbrev pub call_in : Session → CallCmdSpec → Session × Option (List CommandResult)
  call_in s c = (next s, unless_panic (run_call_cmd libs (world.node s.step) args s.wallets c))

  abbrev pub view_in : Session → ViewCmdSpec → Session × Option (List CommandResult)
  view_in s c = (
    next s,
    unless_panic (run_view_cmd slice libs (world.node s.step) args s.wallets s.contracts c),
  )

  abbrev message_of : Option Error → Option Text
  message_of none = none
  message_of (some e) = some (world.message e)

  -- The one result of runWriteCmd.
  abbrev pub write_results : Result Error Written → Option (List CommandResult)
  write_results panic = none
  write_results (err e) =
      some (record { name = []; wallet = []; result = nil; error = some (world.message e) } ∷ [])
  write_results (ok r) =
      some
        (record { name = []; wallet = []; result = text r.hash; error = message_of r.failure } ∷ [])

  abbrev pub after_outcome : Session → Outcome → Session × Option (List CommandResult)
  after_outcome s o = (
    record { contracts = o.contracts; wallets = o.wallets; step = suc s.step },
    write_results o.written,
  )

  -- The matching wallet is a pointer; reading the address of nil panics.
  abbrev pub write_for :
      Session → WriteCmdSpec → Option Text → Session × Option (List CommandResult)
  write_for s c none = (next s, none)
  write_for s c (some name) = elim (lookup name s.wallets) [
    | none ↦ (next s, none)
    | some w ↦
        after_outcome s
          (run_write_cmd libs (world.chain s.step) config args s.contracts s.wallets c name w)
  ]

  abbrev pub await_in : Session → Value → Session × Option Error
  await_in s v =
      (next s, failure (await_tx v (world.first s.step) (world.events s.step ++ done ∷ [])))

  -- The methods of Executor that runTarget calls.
  unfoldable pub executor : Runner Session
  executor = record {
    run_call = call_in;
    run_view = view_in;
    run_write = λ s c. write_for s c c.matching;
    await = await_in;
  }

  -- RunTarget; `none` is a target that is not there.
  unfoldable pub run_named_target : Cmds → Map (List Text) → Text → Session → Option Sent
  run_named_target cmds targets name s = elim (lookup name targets) [
    | none ↦ none
    | some target ↦ some (run_target executor cmds target s)
  ]

  -- RunCommand
  unfoldable pub run_command :
      Cmds → Text → Session → Option (Session × Option (List CommandResult))
  unfolding executor
  run_command cmds name s = elim (lookup name cmds.calls) [
    | some c ↦ some (executor.run_call s c)
    | none ↦ elim (lookup name cmds.views) [
      | some c ↦ some (executor.run_view s c)
      | none ↦ elim (lookup name cmds.writes) [
        | some c ↦ some (executor.run_write s c)
        | none ↦ none
      ]
    ]
  ]

-- New: the client of the node group, and the sections that the runs share.
unfoldable pub new_executor :
    Libs → Inventory → Text → Contracts → Wallets → Result Error (Text × Session)
new_executor libs inventory group contracts wallets = do
  client ← get_client libs inventory group
  ok (client, record { contracts = contracts; wallets = wallets; step = 0 })
