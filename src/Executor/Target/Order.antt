-- ===== src/Executor/Target/Order.antt =====
-- The order of the results of a target.
use ethereum_playbook.Common.{
  ℕ, suc, Bool, true, false, Option, none, some, List, [], ◌∷◌, if◌then◌else◌, ◌≡◌, refl, arith, ap,
  ◌∙◌, Option-cases, inl, inr, All, take,
}
use ethereum_playbook.Common.Text.{Text}
use ethereum_playbook.Common.Maps.{lookup}
use ethereum_playbook.Errors.{Error}
use ethereum_playbook.Targets.{Cmds, name, is_deferred, cmd_names}
use ethereum_playbook.Targets.Found.{is_runnable, not-member_of_lookup}
use ethereum_playbook.Executor.{CommandResult, set_name}
use ethereum_playbook.Executor.Target.{
  Runner, Sent, stopped, panicked, sends, after_read, after_await, follow, after_write, run_target,
}

abbrev pub head_name : List CommandResult → Text
head_name [] = []
head_name (r ∷ rs) = r.name

-- The names under which results are sent.
abbrev pub sent_names : Sent → List Text
sent_names stopped = []
sent_names panicked = []
sent_names (sends results later) = head_name results ∷ sent_names later

head_name-set_name : (rs : List CommandResult) (n : Text) → head_name (set_name rs n) ≡ n
unfolding set_name
head_name-set_name [] n = refl
head_name-set_name (r ∷ rs) n = refl

abbrev Prefix : Sent → List Text → Type 0
Prefix sent names = (k : ℕ) × (sent_names sent ≡ take k names)

sends-prefix :
    (rs : List CommandResult) (n : Text) (later : Sent) (names : List Text)
    → Prefix later names
    → Prefix (sends (set_name rs n) later) (n ∷ names)
sends-prefix rs n later names (k, e) =
    (suc k, ap (λ m. m ∷ sent_names later) (head_name-set_name rs n) ∙ ap (λ l. n ∷ l) e)

module _ {S : Type 0} (runner : Runner S) (names : List Text) (later : S → Sent)
    (all : (s : S) → Prefix (later s) names) where
  after_read-prefix :
      (n : Text) (r : S × Option (List CommandResult))
      → Prefix (after_read runner n later r) (n ∷ names)
  after_read-prefix n (s, none) = (0, refl)
  after_read-prefix n (s, some rs) = sends-prefix rs n (later s) names (all s)

  after_await-prefix : (r : S × Option Error) → Prefix (after_await runner later r) names
  after_await-prefix (s, none) = all s
  after_await-prefix (s, some e) = (0, refl)

  unless_deferred-prefix :
      (deferred : Bool) (s : S) (r : S × Option Error)
      → Prefix (if deferred then later s else after_await runner later r) names
  unless_deferred-prefix true s r = all s
  unless_deferred-prefix false s r = after_await-prefix r

  follow-prefix :
      (deferred : Bool) (s : S) (rs : List CommandResult)
      → Prefix (follow runner deferred later s rs) names
  follow-prefix deferred s [] = (0, refl)
  follow-prefix deferred s (r ∷ rs) = elim (Option-cases r.error) [
    | inl fine ↦
        let (k, e) = unless_deferred-prefix deferred s (runner.await s r.result) in
        (k, ground (arith, fine, e))
    | inr (e, failed) ↦ (0, ground (arith, failed))
  ]

  after_write-prefix :
      (n : Text) (deferred : Bool) (r : S × Option (List CommandResult))
      → Prefix (after_write runner n deferred later r) (n ∷ names)
  after_write-prefix n deferred (s, none) = (0, refl)
  after_write-prefix n deferred (s, some rs) =
      sends-prefix rs n (follow runner deferred later s rs) names (follow-prefix deferred s rs)

module _ {S : Type 0} (runner : Runner S) (cmds : Cmds) where
  -- The results of a target whose commands are all in some section come in the order of the target
  -- and under the names of its commands, and none is left out before the place where the run stops.
  pub run_target-cmd_names :
      (specs : List Text) (s : S)
      → All (λ spec. is_runnable cmds spec ≡ true) specs
      → (k : ℕ) × (sent_names (run_target runner cmds specs s) ≡ take k (cmd_names specs))
  unfolding run_target cmd_names
  run_target-cmd_names [] s known = (0, refl)
  run_target-cmd_names (spec ∷ specs) s (runs, known) =
      let n = name spec in
      let all : (t : S) → Prefix (run_target runner cmds specs t) (cmd_names specs) =
        λ t. run_target-cmd_names specs t known in
      elim (Option-cases (lookup n cmds.calls)) [
        | inr (c, found) ↦
            let (k, e) =
              after_read-prefix runner (cmd_names specs) (run_target runner cmds specs) all n
                (runner.run_call s c) in
            (k, ground (arith, found, e))
        | inl no_call ↦ elim (Option-cases (lookup n cmds.views)) [
          | inr (c, found) ↦
              let (k, e) =
                after_read-prefix runner (cmd_names specs) (run_target runner cmds specs) all n
                  (runner.run_view s c) in
              (k, ground (arith, no_call, found, e))
          | inl no_view ↦ elim (Option-cases (lookup n cmds.writes)) [
            | inr (c, found) ↦
                let (k, e) =
                  after_write-prefix runner (cmd_names specs) (run_target runner cmds specs) all n
                    (is_deferred spec) (runner.run_write s c) in
                (k, ground (arith, no_call, no_view, found, e))
            | inl no_write ↦ absurd (
                ground (
                  arith,
                  runs,
                  not-member_of_lookup n cmds.calls no_call,
                  not-member_of_lookup n cmds.views no_view,
                  not-member_of_lookup n cmds.writes no_write,
                ))
          ]
        ]
      ]
