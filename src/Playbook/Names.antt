-- ===== src/Playbook/Names.antt =====
-- The names of commands and targets are unique over all sections.
use ethereum_playbook.Common.{
  false, List, [], ◌∷◌, Result, ok, ◌>>=◌, if◌then◌else◌, >>=-eq-ok, ◌≡◌, arith, Bool-cases, inl,
  inr, sym, ◌∙◌, ap,
}
use ethereum_playbook.Common.Text.{Text, text_eq}
use ethereum_playbook.Common.Maps.{Map, member}
use ethereum_playbook.Errors.{Error}
use ethereum_playbook.Commands.{
  Env, CallCmdSpec, ViewCmdSpec, WriteCmdSpec, validate_call, validate_view, validate_write,
}
use ethereum_playbook.Targets
use ethereum_playbook.Targets.{Cmds, validate_target}
use ethereum_playbook.Playbook.{validate_cmds, check_commands}

-- The names that a section adds to those that are taken.
abbrev pub taken {ℓ} : {V : Type ℓ} → Map V → List Text → List Text
taken [] names = names
taken ((name, v) ∷ rest) names = taken rest (name ∷ names)

abbrev pub IsDistinct : List Text → Type 0
IsDistinct [] = Unit
IsDistinct (name ∷ names) = (member name names ≡ false) × IsDistinct names

module _ {C : Type 0} (validate_one : Text → C → Result Error C) (app : Text) where
  abbrev one : Text → C → Result Error C
  one name cmd = if text_eq app name then validate_one name cmd else ok cmd

  abbrev many : List Text → Map C → Result Error (Map C × List Text)
  many = validate_cmds validate_one app

  abbrev entry : Text → C → (Map C × List Text) → Result Error (Map C × List Text)
  entry name c p = ok ((name, c) ∷ p.0, p.1)

  validate_cmds-taken :
      (unique : List Text) (cmds cmds' : Map C) (names : List Text)
      → validate_cmds validate_one app unique cmds ≡ ok (cmds', names)
      → IsDistinct unique
      → (names ≡ taken cmds unique) × IsDistinct names
  unfolding validate_cmds
  validate_cmds-taken unique [] cmds' names h d =
      let q : unique ≡ names = ground arith in (sym q, rw (sym q) d)
  validate_cmds-taken unique ((name, cmd) ∷ rest) cmds' names h d =
      elim (Bool-cases (member name unique)) [
        | inl dup ↦ absurd (ground (arith, dup))
        | inr fresh ↦
            let bound : (one name cmd >>= λ c. many (name ∷ unique) rest >>= entry name c)
                ≡ ok (cmds', names) =
              ground (arith, fresh) in
            let (c, _, h1) =
              >>=-eq-ok (one name cmd) (λ c. many (name ∷ unique) rest >>= entry name c) bound in
            let (p, valid, done) = >>=-eq-ok (many (name ∷ unique) rest) (entry name c) h1 in
            let q : p.1 ≡ names = ground arith in
            rw (sym q) (validate_cmds-taken (name ∷ unique) rest p.0 p.1 valid (fresh, d))
      ]

validate_targets-taken :
    (env : Env) (cmds cmds' : Cmds) (unique : List Text) (targets : Map (List Text))
    (names : List Text)
    → Targets.validate env cmds unique targets ≡ ok (cmds', names)
    → IsDistinct unique
    → (names ≡ taken targets unique) × IsDistinct names
unfolding Targets.validate
validate_targets-taken env cmds cmds' unique [] names h d =
    let q : unique ≡ names = ground arith in (sym q, rw (sym q) d)
validate_targets-taken env cmds cmds' unique ((name, target) ∷ rest) names h d =
    elim (Bool-cases (member name unique)) [
      | inl dup ↦ absurd (ground (arith, dup))
      | inr fresh ↦
          let bound : (validate_target env cmds target >>= λ c.
          Targets.validate env c (name ∷ unique) rest)
              ≡ ok (cmds', names) =
            ground (arith, fresh) in
          let (c, _, valid) =
            >>=-eq-ok (validate_target env cmds target)
              (λ c. Targets.validate env c (name ∷ unique) rest) bound in
          validate_targets-taken env c cmds' (name ∷ unique) rest names valid (fresh, d)
    ]

-- When the validation of the commands and the targets succeeds, no name stands twice among the CALL
-- commands, the VIEW commands, the WRITE commands and the targets, taken together.
pub check_commands-IsDistinct :
    (env : Env) (app : Text) (cmds cmds' : Cmds) (targets : Map (List Text)) (names : List Text)
    → check_commands env app cmds targets ≡ ok (cmds', names)
    → (names ≡ taken targets (taken cmds.writes (taken cmds.views (taken cmds.calls []))))
      × IsDistinct names
unfolding check_commands
check_commands-IsDistinct env app cmds cmds' targets names h =
    let calls = many (λ n c. validate_call env c) app [] cmds.calls in
    let views : List Text → Result Error (Map ViewCmdSpec × List Text) =
      λ u. many (λ n c. validate_view env c) app u cmds.views in
    let writes : List Text → Result Error (Map WriteCmdSpec × List Text) =
      λ u. many (λ n c. validate_write env n c) app u cmds.writes in
    let all : Map CallCmdSpec
        → Map ViewCmdSpec
        → Map WriteCmdSpec
        → List Text
        → Result Error (Cmds × List Text) =
      λ c v w u. Targets.validate env (record { calls = c; views = v; writes = w }) u targets in
    let (c, c_ok, h1) =
      >>=-eq-ok calls (λ c. views c.1 >>= λ v. writes v.1 >>= λ w. all c.0 v.0 w.0 w.1) h in
    let (v, v_ok, h2) = >>=-eq-ok (views c.1) (λ v. writes v.1 >>= λ w. all c.0 v.0 w.0 w.1) h1 in
    let (w, w_ok, h3) = >>=-eq-ok (writes v.1) (λ w. all c.0 v.0 w.0 w.1) h2 in
    let c_names =
      validate_cmds-taken (λ n c. validate_call env c) app [] cmds.calls c.0 c.1 c_ok tt in
    let v_names =
      validate_cmds-taken (λ n c. validate_view env c) app c.1 cmds.views v.0 v.1 v_ok c_names.1 in
    let w_names =
      validate_cmds-taken (λ n c. validate_write env n c) app v.1 cmds.writes w.0 w.1 w_ok
        v_names.1 in
    let t_names =
      validate_targets-taken env (record { calls = c.0; views = v.0; writes = w.0 }) cmds' w.1
        targets names h3 w_names.1 in
    (
      t_names.0
          ∙ ap (taken targets)
              (w_names.0 ∙ ap (taken cmds.writes) (v_names.0 ∙ ap (taken cmds.views) c_names.0)),
      t_names.1,
    )
