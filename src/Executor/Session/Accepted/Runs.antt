-- ===== src/Executor/Session/Accepted/Runs.antt =====
-- A target that TargetSpec.Validate accepts runs.
use ethereum_playbook.Common.{
  ℕ, false, none, some, List, [], ◌∷◌, ok, >>=-eq-ok, Bool, ◌≡◌, refl, sym, ◌∙◌, arith, All,
  Bool-cases, inl, inr,
}
use ethereum_playbook.Common.Text.{Text, text_eq, text_eq_iff}
use ethereum_playbook.Common.Maps.{
  lookup, lookup-insert_cases, lookup-insert_own, lookup-insert_other,
}
use ethereum_playbook.Commands.{Env, CallCmdSpec, ViewCmdSpec}
use ethereum_playbook.Commands.Write.{validate_write-IsSendable}
use ethereum_playbook.Targets.{Cmds, name, validate_command, validate_target}
use ethereum_playbook.Targets.Steps.{
  Validated, as_call, as_view, as_write, validate_command-Validated,
}
use ethereum_playbook.Executor.Count.{IsKnown}
use ethereum_playbook.Executor.Session.Ready.{IsReady}
use ethereum_playbook.Executor.Session.Accepted.{
  start, validate_call-ReadyCall, validate_view-ReadyView, IsSendable-ReadyWrite,
}

-- The three sections have the same under a name.
abbrev SameAt : Cmds → Cmds → Text → Type 0
SameAt c d m =
    (lookup m d.calls ≡ lookup m c.calls)
    × (lookup m d.views ≡ lookup m c.views)
    × (lookup m d.writes ≡ lookup m c.writes)

module _ (env : Env) (step : ℕ) where
  -- What the YAML decoder leaves: no wallets that are not in the specification.
  pub record IsLoaded (cmds : Cmds) : Type 0 where
    pub call :
        (n : Text) (c : CallCmdSpec)
        → lookup n cmds.calls ≡ some c
        → All (IsKnown env.wallets) c.matching
    pub view :
        (n : Text) (c : ViewCmdSpec)
        → lookup n cmds.views ≡ some c
        → All (IsKnown env.wallets) c.matching

  validated-IsLoaded :
      (cmds cmds' : Cmds) (n : Text) {deferred : Bool}
      → Validated env cmds cmds' n deferred
      → IsLoaded cmds
      → IsLoaded cmds'
  validated-IsLoaded cmds cmds' n (as_call c c' _ found valid q) h = rw q (record {
    call = λ j d e. elim (lookup-insert_cases n j c' d cmds.calls e) [
      | inl (_, same) ↦
          rw same (validate_call-ReadyCall env step c c' (h.call n c found) valid).matched
      | inr before ↦ h.call j d before
    ];
    view = h.view;
  })
  validated-IsLoaded cmds cmds' n (as_view c c' _ _ found valid q) h = rw q (record {
    call = h.call;
    view = λ j d e. elim (lookup-insert_cases n j c' d cmds.views e) [
      | inl (_, same) ↦
          rw same (validate_view-ReadyView env step c c' (h.view n c found) valid).matched
      | inr before ↦ h.view j d before
    ];
  })
  validated-IsLoaded cmds cmds' n (as_write c c' _ _ found valid q) h =
      rw q (record { call = h.call; view = h.view })

  -- The command that was validated is ready.
  validated-IsReady :
      (cmds cmds' : Cmds) (n : Text) {deferred : Bool}
      → Validated env cmds cmds' n deferred
      → IsLoaded cmds
      → IsReady (start env step) cmds' n
  validated-IsReady cmds cmds' n (as_call c c' _ found valid q) h =
      let own : lookup n cmds'.calls ≡ some c' = rw q (lookup-insert_own n c' cmds.calls) in
      record {
        call = λ d e.
            let same : d ≡ c' = ground (arith, own, e) in
            rw same (validate_call-ReadyCall env step c c' (h.call n c found) valid);
        view = λ d no_call e. absurd (ground (arith, own, no_call));
        write = λ d no_call no_view e. absurd (ground (arith, own, no_call));
      }
  validated-IsReady cmds cmds' n (as_view c c' _ no_call found valid q) h =
      let none_own : lookup n cmds'.calls ≡ none = rw q no_call in
      let own : lookup n cmds'.views ≡ some c' = rw q (lookup-insert_own n c' cmds.views) in
      record {
        call = λ d e. absurd (ground (arith, none_own, e));
        view = λ d _ e.
            let same : d ≡ c' = ground (arith, own, e) in
            rw same (validate_view-ReadyView env step c c' (h.view n c found) valid);
        write = λ d _ no_view e. absurd (ground (arith, own, no_view));
      }
  validated-IsReady cmds cmds' n (as_write c c' no_call no_view found valid q) h =
      let none_call : lookup n cmds'.calls ≡ none = rw q no_call in
      let none_view : lookup n cmds'.views ≡ none = rw q no_view in
      let own : lookup n cmds'.writes ≡ some c' = rw q (lookup-insert_own n c' cmds.writes) in
      record {
        call = λ d e. absurd (ground (arith, none_call, e));
        view = λ d _ e. absurd (ground (arith, none_view, e));
        write = λ d _ _ e.
            let same : d ≡ c' = ground (arith, own, e) in
            rw same
              (IsSendable-ReadyWrite env step c' (validate_write-IsSendable env n c c' valid));
      }

  validated-SameAt :
      (cmds cmds' : Cmds) (n m : Text) {deferred : Bool}
      → Validated env cmds cmds' n deferred
      → text_eq n m ≡ false
      → SameAt cmds cmds' m
  validated-SameAt cmds cmds' n m (as_call c c' _ _ _ q) other =
      rw q (lookup-insert_other n m c' cmds.calls other, refl, refl)
  validated-SameAt cmds cmds' n m (as_view c c' _ _ _ _ q) other =
      rw q (refl, lookup-insert_other n m c' cmds.views other, refl)
  validated-SameAt cmds cmds' n m (as_write c c' _ _ _ _ q) other =
      rw q (refl, refl, lookup-insert_other n m c' cmds.writes other)

  SameAt-IsReady :
      (c d : Cmds) (m : Text)
      → SameAt c d m
      → IsReady (start env step) c m
      → IsReady (start env step) d m
  SameAt-IsReady c d m (calls, views, writes) h = record {
    call = λ x e. h.call x (sym calls ∙ e);
    view = λ x none_call e. h.view x (sym calls ∙ none_call) (sym views ∙ e);
    write = λ x none_call none_view e.
        h.write x (sym calls ∙ none_call) (sym views ∙ none_view) (sym writes ∙ e);
  }

  -- One round of the validation keeps the commands ready that are ready.
  validated-keeps_IsReady :
      (cmds cmds' : Cmds) (n m : Text) {deferred : Bool}
      → Validated env cmds cmds' n deferred
      → IsLoaded cmds
      → IsReady (start env step) cmds m
      → IsReady (start env step) cmds' m
  validated-keeps_IsReady cmds cmds' n m valid loaded h = elim (Bool-cases (text_eq n m)) [
    | inl same ↦
        let q : m ≡ n = sym ((text_eq_iff n m).0 same) in
        rw q (validated-IsReady cmds cmds' n valid loaded)
    | inr other ↦ SameAt-IsReady cmds cmds' m (validated-SameAt cmds cmds' n m valid other) h
  ]

  pub validate_target-IsLoaded :
      (specs : List Text) (cmds cmds' : Cmds)
      → validate_target env cmds specs ≡ ok cmds'
      → IsLoaded cmds
      → IsLoaded cmds'
  unfolding validate_target
  validate_target-IsLoaded [] cmds cmds' h loaded =
      let q : cmds' ≡ cmds = ground arith in rw q loaded
  validate_target-IsLoaded (spec ∷ specs) cmds cmds' h loaded =
      let (mid, first, rest) =
        >>=-eq-ok (validate_command env cmds spec) (λ c. validate_target env c specs) h in
      validate_target-IsLoaded specs mid cmds' rest (
        validated-IsLoaded cmds mid (name spec) (validate_command-Validated env cmds mid spec first)
          loaded)

  pub validate_target-keeps_IsReady :
      (specs : List Text) (cmds cmds' : Cmds) (m : Text)
      → validate_target env cmds specs ≡ ok cmds'
      → IsLoaded cmds
      → IsReady (start env step) cmds m
      → IsReady (start env step) cmds' m
  unfolding validate_target
  validate_target-keeps_IsReady [] cmds cmds' m h loaded ready =
      let q : cmds' ≡ cmds = ground arith in rw q ready
  validate_target-keeps_IsReady (spec ∷ specs) cmds cmds' m h loaded ready =
      let (mid, first, rest) =
        >>=-eq-ok (validate_command env cmds spec) (λ c. validate_target env c specs) h in
      let valid = validate_command-Validated env cmds mid spec first in
      validate_target-keeps_IsReady specs mid cmds' m rest
        (validated-IsLoaded cmds mid (name spec) valid loaded)
        (validated-keeps_IsReady cmds mid (name spec) m valid loaded ready)

  -- Every command of a validated target is ready.
  pub validate_target-IsReady :
      (specs : List Text) (cmds cmds' : Cmds)
      → validate_target env cmds specs ≡ ok cmds'
      → IsLoaded cmds
      → All (λ spec. IsReady (start env step) cmds' (name spec)) specs
  unfolding validate_target
  validate_target-IsReady [] cmds cmds' h loaded = tt
  validate_target-IsReady (spec ∷ specs) cmds cmds' h loaded =
      let (mid, first, rest) =
        >>=-eq-ok (validate_command env cmds spec) (λ c. validate_target env c specs) h in
      let valid = validate_command-Validated env cmds mid spec first in
      let loaded' = validated-IsLoaded cmds mid (name spec) valid loaded in
      (
        validate_target-keeps_IsReady specs mid cmds' (name spec) rest loaded'
            (validated-IsReady cmds mid (name spec) valid loaded),
        validate_target-IsReady specs mid cmds' rest loaded',
      )
