-- ===== src/Commands/Write.antt =====
-- What a validated WRITE command guarantees to its execution, and what a second validation does.
use ethereum_playbook.Common.{
  true, false, some, Result, ok, ◌>>=◌, >>=-eq-ok, ◌≡◌, ◌⊎◌, inl, inr, sym, arith, ◌∙◌, ap,
  is_empty, Bool-cases, Option-cases, All, length,
}
use ethereum_playbook.Common.Text.{Text, text_eq, text_eq_iff}
use ethereum_playbook.Common.Maps.{lookup}
use ethereum_playbook.Wallets.{WalletSpec, get_all, get_one, pointer}
use ethereum_playbook.Contracts.{zero_address, select_instance}
use ethereum_playbook.Contracts.Instances.{Selected, select_instance-Searched}
use ethereum_playbook.Errors.{Error}
use ethereum_playbook.Params.Spec
use ethereum_playbook.Params.Spec.{ParamSpec, validate_params}
use ethereum_playbook.Params.Spec.Outcomes.{IsResolvable, validate_params-IsResolvable}
use ethereum_playbook.Commands.{
  Env, WriteCmdSpec, is_nil, recipient, destination, match_one, wallet_or_all, sticky_or_name,
  validate_write,
}

-- Where a validated command sends: to an instance of a contract of the specification, to the zero address, or to the
-- address of a wallet that has one.
pub data Destination (env : Env) (cmd : WriteCmdSpec) : Type 0 where
  to_instance :
      (name address : Text)
      → is_empty cmd.to ≡ true
      → Selected env.contracts name address cmd.contract_instance
      → Destination env cmd
  to_zero : cmd.to ≡ zero_address → is_nil cmd.contract_instance ≡ true → Destination env cmd
  to_wallet :
      (name : Text) (w : WalletSpec)
      → lookup name env.wallets ≡ some w
      → cmd.to ≡ w.address
      → is_empty w.address ≡ false
      → is_nil cmd.contract_instance ≡ true
      → Destination env cmd

module _ (env : Env) where
  recipient_cases :
      (to result : Text)
      → recipient env.wallets to ≡ ok result
      → ((result ≡ zero_address) × (to ≡ zero_address))
        ⊎ ((w : WalletSpec) × (lookup to env.wallets ≡ some w)
            × (result ≡ w.address)
            × (is_empty w.address ≡ false))
  unfolding recipient
  recipient_cases to result h = elim (Bool-cases (text_eq to zero_address)) [
    | inl z ↦
        let q : to ≡ zero_address = (text_eq_iff to zero_address).0 z in
        let same : to ≡ result = ground (arith, z) in inl (sym same ∙ q, q)
    | inr nz ↦ elim (Option-cases (lookup to env.wallets)) [
      | inl missing ↦ absurd (ground (arith, nz, missing))
      | inr (w, found) ↦ inr (w, found, ground (arith, nz, found), ground (arith, nz, found))
    ]
  ]

  destination_sound :
      (cmd cmd' : WriteCmdSpec) → destination env cmd ≡ ok cmd' → Destination env cmd'
  unfolding destination
  destination_sound cmd cmd' h = elim (Bool-cases (is_empty cmd.to)) [
    | inl e ↦
        let bound : (select_instance env.contracts cmd.contract_instance >>= λ p.
        ok (record cmd { contract_instance = p }))
            ≡ ok cmd' =
          ground (arith, e) in
        let (p, chosen, done) =
          >>=-eq-ok (select_instance env.contracts cmd.contract_instance)
            (λ p. ok (record cmd { contract_instance = p })) bound in
        let q : cmd' ≡ record cmd { contract_instance = p } = ground arith in
        let (name, address, sel) =
          select_instance-Searched env.contracts cmd.contract_instance p chosen in
        rw q (to_instance name address e sel)
    | inr n ↦ elim (Bool-cases (is_nil cmd.contract_instance)) [
      | inr used ↦ absurd (ground (arith, n, used))
      | inl unused ↦
          let bound : (recipient env.wallets cmd.to >>= λ t. ok (record cmd { to = t })) ≡ ok cmd' =
            ground (arith, n, unused) in
          let (t, resolved, done) =
            >>=-eq-ok (recipient env.wallets cmd.to) (λ t. ok (record cmd { to = t })) bound in
          let q : cmd' ≡ record cmd { to = t } = ground arith in
          elim (recipient_cases cmd.to t resolved) [
            | inl (z, _) ↦ rw q (to_zero z unused)
            | inr (w, found, same, present) ↦ rw q (to_wallet cmd.to w found same present unused)
          ]
    ]
  ]

  destination-matching :
      (cmd cmd' : WriteCmdSpec) → destination env cmd ≡ ok cmd' → cmd'.matching ≡ cmd.matching
  unfolding destination
  destination-matching cmd cmd' h = elim (Bool-cases (is_empty cmd.to)) [
    | inl e ↦ ground (arith, e)
    | inr n ↦ ground (arith, n)
  ]

  Destination-params :
      (cmd : WriteCmdSpec) (ps : ParamSpec)
      → Destination env cmd
      → Destination env (record cmd { param_spec = ps })
  Destination-params cmd ps (to_instance n a e p) = to_instance n a e p
  Destination-params cmd ps (to_zero z u) = to_zero z u
  Destination-params cmd ps (to_wallet name w found same present u) =
      to_wallet name w found same present u

  pointer_known :
      (name w : Text)
      → pointer env.wallets name ≡ some w
      → (spec : WalletSpec) × (lookup w env.wallets ≡ some spec)
  pointer_known name w h = elim (Option-cases (lookup name env.wallets)) [
    | inl missing ↦ absurd (ground (arith, missing))
    | inr (spec, found) ↦
        let q : name ≡ w = ground (arith, found) in
        (spec, ap (λ k. lookup k env.wallets) (sym q) ∙ found)
  ]

  match_one_known :
      (name : Text) (cmd : WriteCmdSpec) (w : Text)
      → match_one env name cmd ≡ ok w
      → (spec : WalletSpec) × (lookup w env.wallets ≡ some spec)
  unfolding match_one
  match_one_known name cmd w h =
      elim (Option-cases (env.libs.compile_regexp (wallet_or_all cmd.wallet))) [
        | inl bad ↦ absurd (ground (arith, bad))
        | inr (rx, compiled) ↦
            let hash = sticky_or_name cmd.sticky name in
            let chosen : get_one env.libs env.wallets rx hash ≡ some w = ground (arith, compiled) in
            pointer_known (env.libs.get_node (get_all env.wallets rx) hash) w
              (unfold get_one in chosen)
      ]

  pub validate_values :
      (ps ps' : ParamSpec)
      → Spec.validate env.libs env.args env.wallets ps ≡ ok ps'
      → (length ps'.param_values ≡ length ps'.params)
        × All (IsResolvable env.wallets) ps'.param_values
  unfolding Spec.validate
  validate_values ps ps' h =
      let (vs, valid, done) =
        >>=-eq-ok (validate_params env.libs env.args env.wallets ps.params)
          (λ vs. ok (record ps { param_values = vs })) h in
      let q : ps' ≡ record ps { param_values = vs } = ground arith in
      rw q (validate_params-IsResolvable env.libs env.args env.wallets ps.params vs valid)

  abbrev pub prepared : Text → WriteCmdSpec → Text → WriteCmdSpec
  prepared name cmd m = record cmd {
    wallet = wallet_or_all cmd.wallet;
    sticky = sticky_or_name cmd.sticky name;
    matching = some m;
  }

  abbrev pub finished : WriteCmdSpec → WriteCmdSpec → Result Error WriteCmdSpec
  finished cmd sent = do
    ps ← Spec.validate env.libs env.args env.wallets cmd.param_spec
    ok (record sent { param_spec = ps })

  -- What a validated WRITE command brings to its execution: a wallet of the specification, a
  -- destination that exists, and a value for each parameter, with references that can be read.
  pub record IsSendable (cmd : WriteCmdSpec) : Type 0 where
    pub wallet : Text
    pub matched : cmd.matching ≡ some wallet
    pub spec : WalletSpec
    pub known : lookup wallet env.wallets ≡ some spec
    pub destination : Destination env cmd
    pub valued : length cmd.param_spec.param_values ≡ length cmd.param_spec.params
    pub resolvable : All (IsResolvable env.wallets) cmd.param_spec.param_values

  -- Validation makes every WRITE command that it accepts ready for execution.
  pub validate_write-IsSendable :
      (name : Text) (cmd cmd' : WriteCmdSpec)
      → validate_write env name cmd ≡ ok cmd'
      → IsSendable cmd'
  unfolding validate_write
  validate_write-IsSendable name cmd cmd' h =
      let (w, matched, h1) =
        >>=-eq-ok (match_one env name cmd)
          (λ m. destination env (prepared name cmd m) >>= finished cmd) h in
      let (sent, placed, h2) =
        >>=-eq-ok (destination env (prepared name cmd w)) (finished cmd) h1 in
      let (ps, valid, h3) =
        >>=-eq-ok (Spec.validate env.libs env.args env.wallets cmd.param_spec)
          (λ ps. ok (record sent { param_spec = ps })) h2 in
      let (spec, known) = match_one_known name cmd w matched in
      let values = validate_values cmd.param_spec ps valid in
      let q : cmd' ≡ record sent { param_spec = ps } = ground arith in
      rw q (record {
        wallet = w;
        matched = destination-matching (prepared name cmd w) sent placed;
        spec = spec;
        known = known;
        destination =
            Destination-params sent ps (destination_sound (prepared name cmd w) sent placed);
        valued = values.0;
        resolvable = values.1;
      })
