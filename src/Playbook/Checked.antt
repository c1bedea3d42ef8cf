-- ===== src/Playbook/Checked.antt =====
-- What Spec.Validate leaves in the sections of a specification that it accepts.
use ethereum_playbook.Common.{
  not, ◌&&◌, none, some, Option, List, [], ◌∷◌, Result, ok, err, ◌>>=◌, ◌>>◌, guard, >>=-eq-ok,
  if◌then◌else◌, ◌≡◌, refl, sym, ap, ◌∙◌, arith, Bool-cases, inl, inr,
}
use ethereum_playbook.Common.Text.{Text, text_eq}
use ethereum_playbook.Common.Maps.{Map, member, keys}
use ethereum_playbook.Errors.{Error, no_commands, wallets_required}
use ethereum_playbook.Extern.{Libs}
use ethereum_playbook.Context.{AppContext}
use ethereum_playbook.Inventory.{Inventory}
use ethereum_playbook.Wallets.{Wallets}
use ethereum_playbook.Contracts
use ethereum_playbook.Contracts.{Contracts}
use ethereum_playbook.Contracts.Bound.{AllBound, validate-AllBound}
use ethereum_playbook.Commands.{
  Env, CallCmdSpec, ViewCmdSpec, WriteCmdSpec, validate_call, validate_view, validate_write,
}
use ethereum_playbook.Targets
use ethereum_playbook.Targets.{Cmds, validate_target}
use ethereum_playbook.Targets.Found.{SameNames, validate_target-runnable}
use ethereum_playbook.Playbook.{
  Spec, entries, cmds_of, is_nil_map, put_back, config_of, check_inventory, check_contracts,
  validate_cmds, validate_calls, validate_views, validate_writes, check_commands, validate,
}

module _ {C : Type 0} (validate_one : Text → C → Result Error C) (app : Text) where
  abbrev one : Text → C → Result Error C
  one n cmd = if text_eq app n then validate_one n cmd else ok cmd

  abbrev entry : Text → C → (Map C × List Text) → Result Error (Map C × List Text)
  entry n c p = ok ((n, c) ∷ p.0, p.1)

  keys-validate_cmds :
      (unique : List Text) (cmds : Map C) (p : Map C × List Text)
      → validate_cmds validate_one app unique cmds ≡ ok p
      → keys p.0 ≡ keys cmds
  unfolding validate_cmds
  keys-validate_cmds unique [] p h = let q : p.0 ≡ [] = ground arith in rw q refl
  keys-validate_cmds unique ((n, cmd) ∷ rest) p h = elim (Bool-cases (member n unique)) [
    | inl dup ↦ absurd (ground (arith, dup))
    | inr fresh ↦
        let many = validate_cmds validate_one app (n ∷ unique) rest in
        let bound : (one n cmd >>= λ c. many >>= entry n c) ≡ ok p = ground (arith, fresh) in
        let (c, valid, h1) = >>=-eq-ok (one n cmd) (λ c. many >>= entry n c) bound in
        let (r, more, done) = >>=-eq-ok many (entry n c) h1 in
        let q : p.0 ≡ (n, c) ∷ r.0 = ground arith in
        rw q (ap (λ ks. n ∷ ks) (keys-validate_cmds (n ∷ unique) rest r more))
  ]

module _ (env : Env) where
  SameNames-validate_targets :
      (targets : Map (List Text)) (cmds : Cmds) (unique : List Text) (r : Cmds × List Text)
      → Targets.validate env cmds unique targets ≡ ok r
      → SameNames r.0 cmds
  unfolding Targets.validate
  SameNames-validate_targets [] cmds unique r h =
      let q : r.0 ≡ cmds = ground arith in rw q (refl, refl, refl)
  SameNames-validate_targets ((n, target) ∷ rest) cmds unique r h =
      elim (Bool-cases (member n unique)) [
        | inl dup ↦ absurd (ground (arith, dup))
        | inr fresh ↦
            let later : Cmds → Result Error (Cmds × List Text) =
              λ c. Targets.validate env c (n ∷ unique) rest in
            let bound : (validate_target env cmds target >>= later) ≡ ok r =
              ground (arith, fresh) in
            let (mid, first, more) = >>=-eq-ok (validate_target env cmds target) later bound in
            let (a, b, c) = (validate_target-runnable env cmds mid target first).1 in
            let (x, y, z) = SameNames-validate_targets rest mid (n ∷ unique) r more in
            (x ∙ a, y ∙ b, z ∙ c)
      ]

  -- The validation of the commands and the targets keeps the names of every section.
  pub SameNames-check_commands :
      (app : Text) (cmds : Cmds) (targets : Map (List Text)) (r : Cmds × List Text)
      → check_commands env app cmds targets ≡ ok r
      → SameNames r.0 cmds
  unfolding check_commands
  SameNames-check_commands app cmds targets r h =
      let views : List Text → Result Error (Map ViewCmdSpec × List Text) =
        λ u. validate_views env app u cmds.views in
      let writes : List Text → Result Error (Map WriteCmdSpec × List Text) =
        λ u. validate_writes env app u cmds.writes in
      let all : Map CallCmdSpec
          → Map ViewCmdSpec
          → Map WriteCmdSpec
          → List Text
          → Result Error (Cmds × List Text) =
        λ c v w u. Targets.validate env (record { calls = c; views = v; writes = w }) u targets in
      let (c, c_ok, h1) =
        >>=-eq-ok (validate_calls env app [] cmds.calls)
          (λ c. views c.1 >>= λ v. writes v.1 >>= λ w. all c.0 v.0 w.0 w.1) h in
      let (v, v_ok, h2) = >>=-eq-ok (views c.1) (λ v. writes v.1 >>= λ w. all c.0 v.0 w.0 w.1) h1 in
      let (w, w_ok, h3) = >>=-eq-ok (writes v.1) (λ w. all c.0 v.0 w.0 w.1) h2 in
      let (x, y, z) =
        SameNames-validate_targets targets (record { calls = c.0; views = v.0; writes = w.0 }) w.1 r
          h3 in
      (
        x ∙ keys-validate_cmds (λ n c. validate_call env c) app [] cmds.calls c c_ok,
        y ∙ keys-validate_cmds (λ n c. validate_view env c) app c.1 cmds.views v v_ok,
        z ∙ keys-validate_cmds (λ n c. validate_write env n c) app v.1 cmds.writes w w_ok,
      )

no_keys : {V : Type 0} (m : Map V) → keys m ≡ [] → m ≡ []
no_keys [] h = refl
no_keys ((k, v) ∷ m) h = cc

entries-put_back :
    {V : Type 0} (o : Option (Map V)) (m : Map V)
    → keys m ≡ keys (entries o)
    → entries (put_back o m) ≡ m
entries-put_back none m h = sym (no_keys m h)
entries-put_back (some old) m h = refl

same_cmds :
    {calls : Map CallCmdSpec} {views : Map ViewCmdSpec} {writes : Map WriteCmdSpec} {c : Cmds}
    → calls ≡ c.calls
    → views ≡ c.views
    → writes ≡ c.writes
    → record { calls = calls; views = views; writes = writes } ≡ c
same_cmds x y z = rw (x, y, z) refl

-- The environment in which the commands of a validated specification were checked.
abbrev pub env_of : Libs → AppContext → Spec → Env
env_of libs ctx spec = record {
  libs = libs;
  args = ctx.app_command_args;
  wallets = entries spec.wallets;
  contracts = entries spec.contracts;
}

module _ (libs : Libs) (check_wallets : Wallets → Result Error Wallets) (ctx : AppContext)
    (spec spec' : Spec) where
  abbrev wallets_checked : Option Wallets → Result Error (Option Wallets)
  wallets_checked (some ws) = check_wallets ws >>= λ ws'. ok (some ws')
  wallets_checked none =
      if is_nil_map spec.write_cmds && is_nil_map spec.call_cmds
      then ok none
      else err wallets_required

  abbrev with_cmds : Option Inventory → Option Wallets → Option Contracts → Cmds × List Text → Spec
  with_cmds inv ws cs r = record spec {
    config = some (config_of libs spec.config);
    inventory = inv;
    wallets = ws;
    contracts = cs;
    call_cmds = put_back spec.call_cmds r.0.calls;
    view_cmds = put_back spec.view_cmds r.0.views;
    write_cmds = put_back spec.write_cmds r.0.writes;
  }

  check_contracts-AllBound :
      (o o' : Option Contracts) → check_contracts libs ctx o ≡ ok o' → AllBound (entries o')
  check_contracts-AllBound none o' h = let q : o' ≡ none = ground arith in rw q tt
  check_contracts-AllBound (some cs) o' h =
      let give : Contracts → Result Error (Option Contracts) = λ ds. ok (some ds) in
      let (ds, valid, done) = >>=-eq-ok (Contracts.validate libs ctx.spec_dir cs) give h in
      let q : o' ≡ some ds = ground arith in rw q (validate-AllBound libs ctx.spec_dir cs ds valid)

  -- A specification that Spec.Validate accepts has the commands that the check of its commands and
  -- targets gives, against its own wallets and contracts, whose instances are bound, and the targets
  -- that it had.
  pub validate-checked :
      validate libs check_wallets ctx spec ≡ ok spec'
      → (r : Cmds × List Text) × (check_commands
            (env_of libs ctx spec')
            ctx.app_command
            (cmds_of spec)
            (entries spec.targets)
          ≡ ok r)
        × (cmds_of spec' ≡ r.0)
        × (spec'.targets ≡ spec.targets)
        × AllBound (entries spec'.contracts)
  unfolding validate
  validate-checked h =
      let checked : Option Wallets → Option Contracts → Result Error (Cmds × List Text) = λ ws cs.
        check_commands
          (record {
            libs = libs;
            args = ctx.app_command_args;
            wallets = entries ws;
            contracts = entries cs;
          })
          ctx.app_command (cmds_of spec) (entries spec.targets) in
      let has_cmds =
        guard {E = Error}
          (not
            (is_nil_map spec.view_cmds && is_nil_map spec.write_cmds && is_nil_map spec.call_cmds))
          no_commands in
      let contracts = check_contracts libs ctx spec.contracts in
      let (inv, _, h1) =
        >>=-eq-ok (check_inventory libs ctx spec.inventory)
          (λ inv.
            has_cmds
            >> (wallets_checked spec.wallets >>= λ ws.
                contracts >>= λ cs. checked ws cs >>= λ r. ok (with_cmds inv ws cs r)))
          h in
      let (_, _, h2) =
        >>=-eq-ok has_cmds
          (λ _. wallets_checked spec.wallets >>= λ ws.
            contracts >>= λ cs. checked ws cs >>= λ r. ok (with_cmds inv ws cs r))
          h1 in
      let (ws, _, h3) =
        >>=-eq-ok (wallets_checked spec.wallets)
          (λ ws. contracts >>= λ cs. checked ws cs >>= λ r. ok (with_cmds inv ws cs r)) h2 in
      let (cs, bound, h4) =
        >>=-eq-ok contracts (λ cs. checked ws cs >>= λ r. ok (with_cmds inv ws cs r)) h3 in
      let (r, checks, done) = >>=-eq-ok (checked ws cs) (λ r. ok (with_cmds inv ws cs r)) h4 in
      let q : spec' ≡ with_cmds inv ws cs r = ground arith in
      let (x, y, z) =
        SameNames-check_commands
          (record {
            libs = libs;
            args = ctx.app_command_args;
            wallets = entries ws;
            contracts = entries cs;
          })
          ctx.app_command (cmds_of spec) (entries spec.targets) r checks in
      rw q (
        r,
        checks,
        same_cmds (entries-put_back spec.call_cmds r.0.calls x)
            (entries-put_back spec.view_cmds r.0.views y)
            (entries-put_back spec.write_cmds r.0.writes z),
        refl,
        check_contracts-AllBound spec.contracts cs bound,
      )
