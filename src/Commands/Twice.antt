-- ===== src/Commands/Twice.antt =====
-- A second validation of a WRITE command, which happens when a command that is run is also listed in
-- a target, or when a target lists it twice.
use ethereum_playbook.Common.{
  false, none, some, ok, ◌>>=◌, >>=-eq-ok, ◌≡◌, ◌≢◌, inl, inr, sym, arith, ◌∙◌, ap, is_empty,
  Bool-cases,
}
use ethereum_playbook.Common.Text.{Text, text_eq}
use ethereum_playbook.Common.Maps.{lookup}
use ethereum_playbook.Wallets.{WalletSpec}
use ethereum_playbook.Contracts.{zero_address}
use ethereum_playbook.Params.Spec
use ethereum_playbook.Commands.{
  Env, WriteCmdSpec, is_nil, recipient, destination, match_one, validate_write,
}
use ethereum_playbook.Commands.Write.{prepared, finished}

module _ (env : Env) where
  recipient_address_lem :
      (to result : Text) (w : WalletSpec)
      → text_eq to zero_address ≡ false
      → lookup to env.wallets ≡ some w
      → recipient env.wallets to ≡ ok result
      → (result ≡ w.address) × (is_empty result ≡ false) × (text_eq result zero_address ≡ false)
  unfolding recipient
  recipient_address_lem to result w nz found h =
      let q : w.address ≡ result = ground (arith, nz, found) in
      (
        sym q,
        ground (arith, nz, found, q),
        ap (λ t. text_eq t zero_address) (sym q) ∙ ground (arith, nz, found),
      )

  recipient_refused :
      (to result : Text)
      → text_eq to zero_address ≡ false
      → lookup to env.wallets ≡ none
      → recipient env.wallets to ≢ ok result
  unfolding recipient
  recipient_refused to result nz missing h = ground (arith, nz, missing)

  destination_address :
      (cmd cmd' : WriteCmdSpec) (w : WalletSpec)
      → is_empty cmd.to ≡ false
      → text_eq cmd.to zero_address ≡ false
      → lookup cmd.to env.wallets ≡ some w
      → destination env cmd ≡ ok cmd'
      → (cmd'.to ≡ w.address) × (is_empty cmd'.to ≡ false) × (text_eq cmd'.to zero_address ≡ false)
  unfolding destination
  destination_address cmd cmd' w given nz found h =
      elim (Bool-cases (is_nil cmd.contract_instance)) [
        | inr used ↦ absurd (ground (arith, given, used))
        | inl unused ↦
            let bound : (recipient env.wallets cmd.to >>= λ t. ok (record cmd { to = t }))
                ≡ ok cmd' =
              ground (arith, given, unused) in
            let (t, resolved, done) =
              >>=-eq-ok (recipient env.wallets cmd.to) (λ t. ok (record cmd { to = t })) bound in
            let q : cmd' ≡ record cmd { to = t } = ground arith in
            rw q (recipient_address_lem cmd.to t w nz found resolved)
      ]

  destination_refused :
      (cmd cmd' : WriteCmdSpec)
      → is_empty cmd.to ≡ false
      → text_eq cmd.to zero_address ≡ false
      → lookup cmd.to env.wallets ≡ none
      → destination env cmd ≢ ok cmd'
  unfolding destination
  destination_refused cmd cmd' given nz missing h =
      elim (Bool-cases (is_nil cmd.contract_instance)) [
        | inl unused ↦
            let (t, resolved, _) =
              >>=-eq-ok (recipient env.wallets cmd.to) (λ t. ok (record cmd { to = t })) {b = cmd'}
                (ground (arith, given, unused)) in
            recipient_refused cmd.to t nz missing resolved
        | inr used ↦ ground (arith, given, used)
      ]

  placed_of :
      (name : Text) (cmd cmd' : WriteCmdSpec)
      → validate_write env name cmd ≡ ok cmd'
      → (w : Text) × (sent : WriteCmdSpec) × (destination env (prepared env name cmd w) ≡ ok sent)
        × (cmd'.to ≡ sent.to)
  unfolding validate_write
  placed_of name cmd cmd' h =
      let (w, _, h1) =
        >>=-eq-ok (match_one env name cmd)
          (λ m. destination env (prepared env name cmd m) >>= finished env cmd) h in
      let (sent, placed, h2) =
        >>=-eq-ok (destination env (prepared env name cmd w)) (finished env cmd) h1 in
      let (ps, _, h3) =
        >>=-eq-ok (Spec.validate env.libs env.args env.wallets cmd.param_spec)
          (λ ps. ok (record sent { param_spec = ps })) h2 in
      (w, sent, placed, ground arith)

  -- A WRITE command that sends to a wallet by name cannot be validated twice: the first validation
  -- replaces the name by the wallet's address, and the second looks the address up as a name. This
  -- holds unless some wallet is named like that address.
  pub validate_write_twice :
      (name : Text) (cmd cmd' cmd'' : WriteCmdSpec) (w : WalletSpec)
      → is_empty cmd.to ≡ false
      → text_eq cmd.to zero_address ≡ false
      → lookup cmd.to env.wallets ≡ some w
      → lookup w.address env.wallets ≡ none
      → validate_write env name cmd ≡ ok cmd'
      → validate_write env name cmd' ≢ ok cmd''
  validate_write_twice name cmd cmd' cmd'' w given nz found unnamed first second =
      let (m, sent, placed, kept) = placed_of name cmd cmd' first in
      let (m', sent', placed', _) = placed_of name cmd' cmd'' second in
      let (same, given', nz') =
        destination_address (prepared env name cmd m) sent w given nz found placed in
      destination_refused (prepared env name cmd' m') sent' (ap (λ t. is_empty t) kept ∙ given')
        (ap (λ t. text_eq t zero_address) kept ∙ nz')
        (ap (λ t. lookup t env.wallets) (kept ∙ same) ∙ unnamed) placed'
