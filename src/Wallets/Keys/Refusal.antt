-- ===== src/Wallets/Keys/Refusal.antt =====
-- The key cache behind a wallet that validation refuses.
use ethereum_playbook.Common.{
  some, Result, ok, err, panic, ◌≡◌, ◌⊎◌, inl, inr, refl, arith, Bool-cases,
}
use ethereum_playbook.Common.Text.{Text, text_eq}
use ethereum_playbook.Errors.{Error}
use ethereum_playbook.Extern.{Libs}
use ethereum_playbook.Wallets.{WalletSpec}
use ethereum_playbook.Wallets.Keys.{
  Opened, opened, refused, crashed, Disk, KeyCache, Plan, loaded, unlocks, plan, checked_key,
  unlock, carry_out, validate_wallet,
}

module _ (libs : Libs) (disk : Disk) {K : Type 0} (cache : KeyCache K) where
  -- What the key cache is left at when validation refuses a wallet: as it was, if no key file is
  -- found; otherwise as PrivateKey leaves it once the path is set, with that path of that account
  -- taken back.
  abbrev pub TakenBack : WalletSpec → K → K → Type 0
  TakenBack w k k' =
      (((e : Error) × (plan libs disk w ≡ err e)) × (k' ≡ k))
      ⊎ ((w1 : WalletSpec) × (account : Text) × (path : Text) × (plan libs disk w
            ≡ ok (unlocks w1 account path))
          × (k'
              ≡ cache.unset_path account path
                  ((cache.private_key account w1.password (cache.set_path account path k)).1)))

  checked_key-refused :
      (w : WalletSpec) (account path : Text) (r : Opened × K) (e : Error) (k' : K)
      → checked_key libs disk cache w account path r ≡ (err e, k')
      → k' ≡ cache.unset_path account path r.1
  checked_key-refused w account path (crashed, k1) e k' h = cc
  checked_key-refused w account path (refused, k1) e k' h = ground arith
  checked_key-refused w account path (opened key, k1) e k' h =
      elim (Bool-cases (text_eq (disk.pubkey_to_address key) account)) [
        | inl same ↦ absurd (ground (arith, same))
        | inr differs ↦ ground (arith, differs)
      ]

  carry_out-TakenBack :
      (w : WalletSpec) (p : Result Error Plan) (e : Error) (k k' : K)
      → plan libs disk w ≡ p
      → carry_out libs disk cache p k ≡ (err e, k')
      → TakenBack w k k'
  unfolding unlock
  carry_out-TakenBack w (ok (loaded w1)) e k k' q h = cc
  carry_out-TakenBack w (ok (unlocks w1 account path)) e k k' q h =
      inr (w1, account, path, q, checked_key-refused w1 account path _ e k' h)
  carry_out-TakenBack w (err e1) e k k' q h = inl ((e1, q), ground arith)
  carry_out-TakenBack w panic e k k' q h = cc

  -- A wallet that validation refuses before a key file is found leaves the key cache as it was;
  -- otherwise the last step takes back from the cache the path that was set, for the account that it
  -- was set for.
  pub validate_wallet-TakenBack :
      (w : WalletSpec) (e : Error) (k k' : K)
      → validate_wallet libs disk cache (some w) k ≡ (err e, k')
      → TakenBack w k k'
  unfolding validate_wallet
  validate_wallet-TakenBack w e k k' h = carry_out-TakenBack w (plan libs disk w) e k k' refl h
