-- ===== src/Executor/Target/Clean.antt =====
-- Runs of targets without a panic: the rule for an invariant of the shared state.
use ethereum_playbook.Common.{
  Bool, true, false, Option, none, some, List, [], ◌∷◌, if◌then◌else◌, ◌≡◌, arith, Option-cases,
  inl, inr, All,
}
use ethereum_playbook.Common.Text.{Text}
use ethereum_playbook.Common.Maps.{lookup}
use ethereum_playbook.Errors.{Error}
use ethereum_playbook.Values.{Value}
use ethereum_playbook.Commands.{CallCmdSpec, ViewCmdSpec, WriteCmdSpec}
use ethereum_playbook.Targets.{Cmds, name, is_deferred}
use ethereum_playbook.Executor.{CommandResult, set_name}
use ethereum_playbook.Executor.Target.{
  Runner, Sent, stopped, panicked, sends, after_read, after_await, follow, after_write, run_target,
}

-- No panic, and no empty list of results.
abbrev pub IsClean : Sent → Type 0
IsClean stopped = Unit
IsClean panicked = ⊥
IsClean (sends [] later) = ⊥
IsClean (sends (r ∷ rs) later) = IsClean later

sends-IsClean :
    (rs : List CommandResult) (n : Text) (later : Sent)
    → IsClean later
    → IsClean (sends (set_name rs n) later)
unfolding set_name
sends-IsClean [] n later h = h
sends-IsClean (r ∷ rs) n later h = h

module _ {S : Type 0} (P : S → Type 0) where
  -- A run that gives results and keeps `P`.
  abbrev pub Runs : S × Option (List CommandResult) → Type 0
  Runs (s, none) = ⊥
  Runs (s, some results) = P s

-- An invariant of the state under which no command with a name in `N` panics and which every such
-- command keeps. A section counts where those before it do not have the name.
pub record Keeps {S : Type 0} (runner : Runner S) (cmds : Cmds) (N : Text → Type 0) (P : S → Type 0)
    : Type 0 where
  pub call :
      (s : S) (n : Text) (c : CallCmdSpec)
      → N n
      → lookup n cmds.calls ≡ some c
      → P s
      → Runs P (runner.run_call s c)
  pub view :
      (s : S) (n : Text) (c : ViewCmdSpec)
      → N n
      → lookup n cmds.calls ≡ none
      → lookup n cmds.views ≡ some c
      → P s
      → Runs P (runner.run_view s c)
  pub write :
      (s : S) (n : Text) (c : WriteCmdSpec)
      → N n
      → lookup n cmds.calls ≡ none
      → lookup n cmds.views ≡ none
      → lookup n cmds.writes ≡ some c
      → P s
      → Runs P (runner.run_write s c)
  pub wait : (s : S) (v : Value) → P s → P (runner.await s v).0

module _ {S : Type 0} (runner : Runner S) (cmds : Cmds) (N : Text → Type 0) (P : S → Type 0)
    (keeps : Keeps runner cmds N P) (later : S → Sent)
    (clean : (s : S) → P s → IsClean (later s)) where
  after_read-IsClean :
      (n : Text) (r : S × Option (List CommandResult))
      → Runs P r
      → IsClean (after_read runner n later r)
  after_read-IsClean n (s, none) h = h
  after_read-IsClean n (s, some rs) h = sends-IsClean rs n (later s) (clean s h)

  after_await-IsClean : (r : S × Option Error) → P r.0 → IsClean (after_await runner later r)
  after_await-IsClean (s, none) h = clean s h
  after_await-IsClean (s, some e) h = tt

  unless_deferred-IsClean :
      (deferred : Bool) (s : S) (r : S × Option Error)
      → P s
      → P r.0
      → IsClean (if deferred then later s else after_await runner later r)
  unless_deferred-IsClean true s r h w = clean s h
  unless_deferred-IsClean false s r h w = after_await-IsClean r w

  on_error-IsClean :
      (error : Option Text) (next : Sent)
      → IsClean next
      → IsClean (elim error [ some e ↦ stopped | none ↦ next ])
  on_error-IsClean none next h = h
  on_error-IsClean (some e) next h = tt

  follow-IsClean :
      (deferred : Bool) (s : S) (rs : List CommandResult)
      → P s
      → IsClean (follow runner deferred later s rs)
  follow-IsClean deferred s [] h = tt
  follow-IsClean deferred s (r ∷ rs) h =
      on_error-IsClean r.error
        (if deferred then later s else after_await runner later (runner.await s r.result))
        (unless_deferred-IsClean deferred s (runner.await s r.result) h (keeps.wait s r.result h))

  after_write-IsClean :
      (n : Text) (deferred : Bool) (r : S × Option (List CommandResult))
      → Runs P r
      → IsClean (after_write runner n deferred later r)
  after_write-IsClean n deferred (s, none) h = h
  after_write-IsClean n deferred (s, some rs) h =
      sends-IsClean rs n (follow runner deferred later s rs) (follow-IsClean deferred s rs h)

module _ {S : Type 0} (runner : Runner S) (cmds : Cmds) (N : Text → Type 0) (P : S → Type 0)
    (keeps : Keeps runner cmds N P) where
  -- From a state with the invariant a target whose names are in `N` runs without a panic and sends no
  -- empty list of results.
  pub run_target-IsClean :
      (specs : List Text) (s : S)
      → All (λ spec. N (name spec)) specs
      → P s
      → IsClean (run_target runner cmds specs s)
  unfolding run_target
  run_target-IsClean [] s named h = tt
  run_target-IsClean (spec ∷ specs) s (own, named) h =
      let n = name spec in
      let later = run_target runner cmds specs in
      let now = run_target runner cmds (spec ∷ specs) s in
      let clean : (t : S) → P t → IsClean (later t) = λ t p. run_target-IsClean specs t named p in
      elim (Option-cases (lookup n cmds.calls)) [
        | inr (c, found) ↦
            let q : now ≡ after_read runner n later (runner.run_call s c) = ground (arith, found) in
            rw q (
              after_read-IsClean runner cmds N P keeps later clean n (runner.run_call s c)
                (keeps.call s n c own found h))
        | inl no_call ↦ elim (Option-cases (lookup n cmds.views)) [
          | inr (c, found) ↦
              let q : now ≡ after_read runner n later (runner.run_view s c) =
                ground (arith, no_call, found) in
              rw q (
                after_read-IsClean runner cmds N P keeps later clean n (runner.run_view s c)
                  (keeps.view s n c own no_call found h))
          | inl no_view ↦ elim (Option-cases (lookup n cmds.writes)) [
            | inr (c, found) ↦
                let q : now ≡ after_write runner n (is_deferred spec) later (runner.run_write s c) =
                  ground (arith, no_call, no_view, found) in
                rw q (
                  after_write-IsClean runner cmds N P keeps later clean n (is_deferred spec)
                    (runner.run_write s c) (keeps.write s n c own no_call no_view found h))
            | inl no_write ↦
                let q : now ≡ later s = ground (arith, no_call, no_view, no_write) in
                rw q (clean s h)
          ]
        ]
      ]
