-- ===== src/Executor/Session/Accepted.antt =====
-- The commands that validation accepts are ready to run.
pub mod Runs
pub mod Sections
use ethereum_playbook.Common.{
  ℕ, true, not, List, [], ◌∷◌, ok, ◌>>=◌, ◌>>◌, guard, >>=-eq-ok, is_empty, ◌≡◌, ◌⊎◌, sym, ap, ◌∙◌,
  arith, All, Bool-cases, Option-cases, inl, inr,
}
use ethereum_playbook.Common.Text.{Text, text_eq_refl}
use ethereum_playbook.Common.Maps.{keys, member, lookup_of_member}
use ethereum_playbook.Errors.{Error, no_method}
use ethereum_playbook.Wallets.{get_all}
use ethereum_playbook.Wallets.Selection.{get_all_lem}
use ethereum_playbook.Contracts.{InstancePtr, select_instance}
use ethereum_playbook.Contracts.Instances.{
  Selected-points, select_instance-Searched, select_instance-points,
}
use ethereum_playbook.Params.Spec
use ethereum_playbook.Params.Spec.{ParamSpec}
use ethereum_playbook.Commands.{
  Env, CallCmdSpec, ViewCmdSpec, WriteCmdSpec, match_all, is_nil, validate_call, validate_view,
}
use ethereum_playbook.Commands.Write.{
  Destination, to_instance, to_zero, to_wallet, validate_values, IsSendable,
}
use ethereum_playbook.Executor.Count.{IsKnown}
use ethereum_playbook.Executor.Send.Bound.{IsShared}
use ethereum_playbook.Executor.Send.Keep.{IsReached}
use ethereum_playbook.Executor.Session.{Session}
use ethereum_playbook.Executor.Session.Ready.{ReadyCall, ReadyView, ReadyWrite}

module _ (env : Env) (step : ℕ) where
  -- The state in which a run starts.
  abbrev pub start : Session
  start = record { contracts = env.contracts; wallets = env.wallets; step = step }

  All-IsKnown :
      (names : List Text)
      → ((n : Text) → member n names ≡ true → member n (keys env.wallets) ≡ true)
      → All (IsKnown env.wallets) names
  unfolding member
  All-IsKnown [] h = tt
  All-IsKnown (n ∷ names) h = (
    lookup_of_member n env.wallets (h n (ground (arith, text_eq_refl n))),
    All-IsKnown names (λ k m. h k (ground (arith, m))),
  )

  -- The wallets that an expression matches are known; without one, those that were there before.
  match_all-IsKnown :
      (wallet : Text) (matching found : List Text)
      → All (IsKnown env.wallets) matching
      → match_all env wallet matching ≡ ok found
      → All (IsKnown env.wallets) found
  unfolding match_all
  match_all-IsKnown wallet matching found known h =
      elim (Option-cases (env.libs.compile_regexp wallet)) [
        | inl bad ↦ absurd (ground (arith, bad))
        | inr (rx, compiled) ↦ elim (Bool-cases (is_empty wallet)) [
          | inl e ↦ let q : found ≡ matching = ground (arith, compiled, e) in rw q known
          | inr given ↦
              let q : found ≡ get_all env.wallets rx = ground (arith, compiled, given) in
              rw q (
                All-IsKnown (get_all env.wallets rx) (λ n m.
                  let both = sym ((get_all_lem env.wallets rx).1 n) ∙ m in ground (arith, both)))
        ]
      ]

  pub validate_call-ReadyCall :
      (c c' : CallCmdSpec)
      → All (IsKnown env.wallets) c.matching
      → validate_call env c ≡ ok c'
      → ReadyCall start c'
  unfolding validate_call
  validate_call-ReadyCall c c' known h =
      let finish : List Text → ParamSpec → CallCmdSpec =
        λ m ps. record c { matching = m; param_spec = ps } in
      let params = Spec.validate env.libs env.args env.wallets c.param_spec in
      let (m, matched, h1) =
        >>=-eq-ok (match_all env c.wallet c.matching)
          (λ m. guard (not (is_empty c.method)) no_method >> (params >>= λ ps. ok (finish m ps)))
          h in
      let (_, _, h2) =
        >>=-eq-ok (guard (not (is_empty c.method)) no_method)
          (λ _. params >>= λ ps. ok (finish m ps)) h1 in
      let (ps, valid, done) = >>=-eq-ok params (λ ps. ok (finish m ps)) h2 in
      let q : c' ≡ finish m ps = ground arith in
      rw q (record {
        resolvable = (validate_values env c.param_spec ps valid).1;
        matched = match_all-IsKnown c.wallet c.matching m known matched;
      })

  pub validate_view-ReadyView :
      (c c' : ViewCmdSpec)
      → All (IsKnown env.wallets) c.matching
      → validate_view env c ≡ ok c'
      → ReadyView start c'
  unfolding validate_view
  validate_view-ReadyView c c' known h =
      let finish : List Text → InstancePtr → ParamSpec → ViewCmdSpec =
        λ m p ps. record c { matching = m; contract_instance = p; param_spec = ps } in
      let params = Spec.validate env.libs env.args env.wallets c.param_spec in
      let chosen = select_instance env.contracts c.contract_instance in
      let has_method = guard {E = Error} (not (is_empty c.method)) no_method in
      let (m, matched, h1) =
        >>=-eq-ok (match_all env c.wallet c.matching)
          (λ m. chosen >>= λ p. has_method >> (params >>= λ ps. ok (finish m p ps))) h in
      let (p, pointed, h2) =
        >>=-eq-ok chosen (λ p. has_method >> (params >>= λ ps. ok (finish m p ps))) h1 in
      let (_, _, h3) = >>=-eq-ok has_method (λ _. params >>= λ ps. ok (finish m p ps)) h2 in
      let (ps, valid, done) = >>=-eq-ok params (λ ps. ok (finish m p ps)) h3 in
      let q : c' ≡ finish m p ps = ground arith in
      rw q (record {
        resolvable = (validate_values env c.param_spec ps valid).1;
        matched = match_all-IsKnown c.wallet c.matching m known matched;
        reached = select_instance-points env.contracts c.contract_instance p pointed;
        pointer =
            (let (n, a, s) = select_instance-Searched env.contracts c.contract_instance p pointed in
              (n, s.place, s.pointer));
      })

  -- A destination without a recipient is an instance.
  Destination-IsReached :
      (c : WriteCmdSpec)
      → Destination env c
      → is_empty c.to ≡ true
      → IsReached env.contracts c.contract_instance
  Destination-IsReached c (to_instance n a _ selected) empty =
      Selected-points env.contracts n a c.contract_instance selected
  Destination-IsReached c (to_zero z _) empty = absurd cc
  Destination-IsReached c (to_wallet n w _ same present _) empty = absurd (cc (ap is_empty same))

  Destination-pointer :
      (c : WriteCmdSpec)
      → Destination env c
      → (is_nil c.contract_instance ≡ true)
        ⊎ (IsShared c.contract_instance × IsReached env.contracts c.contract_instance)
  Destination-pointer c (to_instance n a _ selected) = inr (
    (n, selected.place, selected.pointer),
    Selected-points env.contracts n a c.contract_instance selected,
  )
  Destination-pointer c (to_zero _ unused) = inl unused
  Destination-pointer c (to_wallet n w _ same present unused) = inl unused

  pub IsSendable-ReadyWrite : (c : WriteCmdSpec) → IsSendable env c → ReadyWrite start c
  IsSendable-ReadyWrite c sendable = record {
    resolvable = sendable.resolvable;
    wallet = sendable.wallet;
    matched = sendable.matched;
    known = (sendable.spec, sendable.known);
    reached = Destination-IsReached c sendable.destination;
    pointer = Destination-pointer c sendable.destination;
  }
