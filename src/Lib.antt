-- ===== src/Lib.antt =====
-- ethereum-playbook: a YAML specification of wallets, contracts, commands and targets is validated,
-- and its commands are run on an Ethereum node. The model follows the packages `model`, `executor` and
-- `main`.
--
-- The parts, by file:
--   Context       model/context.go: the command line of a run (AppContext)
--   Values        the Go values inside interface{} (parameters, fields, results)
--   Evaler        model/evaler.go: Evaler.Run over go-eval
--   Wallets       model/wallets.go: fields, references (newWalletFieldReference), GetAll and GetOne;
--                 Keys: WalletSpec.Validate, the key files and the key cache
--   Params/...    model/params.go: Refs (argument references, isMathExp), Bytes (createStaticBytes),
--                 Parse (parseParam), Spec (ParamSpec.Validate, CountArgsUsing)
--   Valuer        model/valuer.go: Valuer.Parse, denominateValue
--   Config        model/config.go; Contracts: model/contracts.go; Inventory: model/inventory.go
--   Commands      model/cmds_call.go, model/cmds_read.go, model/cmds_write.go
--   Targets       model/targets.go; Playbook: model/spec.go, Spec.Validate
--   Executor/...  executor/: CALL and VIEW runs, replaceReferences and Trim in Executor; runWriteCmd in
--                 Send, over the node and the key cache of Chain; runTarget in Target, over the
--                 runs of single commands as a record Runner; awaitTx in Await, against the events
--                 that its select meets; New, RunTarget, RunCommand and the runs over the shared
--                 state in Session
--   Prettify      prettify.go: prettifyValue and prettify
--   Main          main.go: loadSpec, validateSpec and the actions of the subcommands; Register:
--                 registerCommands; Export: exportResultsText and the printing of a target
--   Extern        the third-party packages and the host, as the fields of a record Libs
--   Common/...    texts as lists of bytes, maps, sorting, integers, decimal numbers, results
--   Tests/...     concrete runs
--
-- How they interact: Spec.Validate runs the validation of each section and hands the sections on.
-- Commands read wallets and contracts, targets read commands, and the executor reads what validation
-- has stored: matching wallets, pointers to instances and parameter values. A validator that writes
-- to its receiver gives the new record back; a pointer into a section is the key of its entry.
--
-- Conventions: a Go string is a list of bytes, and case mapping and white space are those of ASCII. A
-- Go map is an association list in the order of an iteration, with no key twice in what the YAML
-- gives. `err` is an error or a refusal, `panic` a run-time panic (failed assertion, nil dereference,
-- index out of range). big.Int is ℤ over the native numbers; conversions to machine integers write
-- their wrap-around out. Every loop is structural, on lists; `show_ℕ` runs on a fuel of its argument,
-- which is enough since each step divides by ten.
--
-- A null entry of the YAML is a nil pointer. Subcommands are registered before any validation, so that
-- registerCommands sees the null commands and panics at them: the commands that Spec.Validate sees are
-- not null. WalletSpec.Validate panics at a null wallet; the sections of a `Spec` of the model hold no
-- null wallet, contract or instance. The ABI encoding of a call may panic, which `packs` of Node and
-- Chain tells.
--
-- Not modelled: what the vendored packages do inside, logging, the YAML decoder and the JSON encoder,
-- the flag parser and the help text, and the order in which two goroutines of a target are scheduled:
-- the printer is taken to keep up with the run.
pub mod Common
pub mod Errors
pub mod Extern
pub mod Values
pub mod Evaler
pub mod Wallets
pub mod Context
pub mod Params
pub mod Valuer
pub mod Config
pub mod Contracts
pub mod Commands
pub mod Targets
pub mod Inventory
pub mod Playbook
pub mod Prettify
pub mod Main
pub mod Executor
pub mod Tests
