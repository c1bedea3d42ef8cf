-- ===== src/Tests/Session.antt =====
-- The run of a target over the state that its commands share, at concrete inputs.
use ethereum_playbook.Common.{some, List, [], ◌∷◌, ◌++◌, Result, ◌≡◌, All}
use ethereum_playbook.Common.Text.{Text, codes}
use ethereum_playbook.Common.Maps.{Map}
use ethereum_playbook.Errors.{Error}
use ethereum_playbook.Values.{text}
use ethereum_playbook.Params.Spec
use ethereum_playbook.Wallets.{Wallets}
use ethereum_playbook.Commands.{WriteCmdSpec}
use ethereum_playbook.Targets.{Cmds}
use ethereum_playbook.Executor.Await.{pending, mined, status, tick, done, await_tx, Event}
use ethereum_playbook.Executor.Await.Ends.{await_tx-done}
use ethereum_playbook.Executor.Session.{World}
use ethereum_playbook.Executor.Session.Safe.{Packs}
use ethereum_playbook.Targets
use ethereum_playbook.Tests.Sending.{pay, two_cmds}
use ethereum_playbook.Tests.Running.{echo, encodes-AllGiven}
use ethereum_playbook.Tests.Writing.{quiet_chain}

abbrev later : List Event
later = tick pending (status 1) ∷ []

await_tx-done_example :
    (r : Result Error (Unit {0})) × (await_tx
        (text (codes "tx:0x1"))
        pending
        (later ++ done ∷ later)
      ≡ some r)
    × (await_tx (text (codes "tx:0x1")) pending (later ++ done ∷ []) ≡ some r)
await_tx-done_example = await_tx-done (text (codes "tx:0x1")) pending later later

abbrev pub test_world : World
test_world = record {
  node = λ n. echo;
  chain = λ n. quiet_chain;
  first = λ n. mined;
  events = λ n. [];
  message = λ e. codes "error";
}

-- A payment of nothing, before and after its validation.
abbrev greet : WriteCmdSpec
greet = record pay { value = [] }

abbrev greeted : WriteCmdSpec
greeted = record greet {
  sticky = codes "greet";
  to = codes "0xa1";
  matching = some (codes "alice");
}

abbrev greet_cmds : Cmds
greet_cmds = record two_cmds { writes = (codes "greet", greet) ∷ [] }

abbrev greeted_cmds : Cmds
greeted_cmds = record two_cmds { writes = (codes "greet", greeted) ∷ [] }

abbrev greet_target : List Text
greet_target = codes "block" ∷ codes "greet" ∷ []

abbrev greet_targets : Map (List Text)
greet_targets = (codes "all", greet_target) ∷ []

abbrev greet_names : List Text
greet_names = codes "all" ∷ codes "greet" ∷ codes "block" ∷ []

pub test-Packs : Packs test_world
test-Packs = record {
  view = λ step at method. encodes-AllGiven;
  write = λ step at method. encodes-AllGiven;
}
