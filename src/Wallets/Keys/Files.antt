-- ===== src/Wallets/Keys/Files.antt =====
-- The key files that stop the program.
use ethereum_playbook.Common.{
  Bool, ◌||◌, Option, none, some, List, [], ◌∷◌, Result, ok, err, panic, ◌>>=◌, >>=-panic_cases,
  if◌then◌else◌, is_empty, ◌≡◌, ◌≢◌, ◌⊎◌, inl, inr, refl, arith, Bool-cases, Option-cases,
}
use ethereum_playbook.Common.Text.{Text, text_eq}
use ethereum_playbook.Errors.{Error}
use ethereum_playbook.Extern.{Libs}
use ethereum_playbook.Wallets.{WalletSpec}
use ethereum_playbook.Wallets.Keys.{
  Opened, opened, refused, crashed, Disk, KeyCache, KeyFile, KeyJson, unreadable, null_json,
  key_json, WalkEntry, walk_error, directory, file, Plan, loaded, unlocks, settle_address,
  key_file_account, key_file_path, load_key_file, checked_key_file, for_each_key_file,
  from_priv_key, located, from_key_file, located_in_store, from_key_store, plan, checked_key,
  unlock, carry_out, validate_wallet,
}

module _ (libs : Libs) (disk : Disk) where
  -- Some key file holds the JSON text `null`.
  abbrev pub HasNull : Type 0
  HasNull = (path : Text) × (disk.read_key_file path ≡ null_json)

  checked_key_file-null :
      (path : Text) (json : KeyJson)
      → checked_key_file libs disk path json ≡ panic
      → json ≡ null_json
  checked_key_file-null path unreadable h = cc
  checked_key_file-null path null_json h = refl
  checked_key_file-null path (key_json a) h = absurd (ground arith)

  load_key_file-HasNull : (path : Text) → load_key_file libs disk path ≡ panic → HasNull
  unfolding load_key_file
  load_key_file-HasNull path h = (path, checked_key_file-null path (disk.read_key_file path) h)

  settle_address-ne-panic :
      (w : WalletSpec) (account : Text) → settle_address libs disk w account ≢ panic
  settle_address-ne-panic w account h = absurd (ground arith)

  for_each_key_file-HasNull :
      (root : Text) (stops : KeyFile → Bool) (entries : List WalkEntry)
      → for_each_key_file libs disk root stops entries ≡ panic
      → HasNull
  unfolding for_each_key_file
  for_each_key_file-HasNull root stops [] h = cc
  for_each_key_file-HasNull root stops (walk_error ∷ entries) h = cc
  for_each_key_file-HasNull root stops (directory path ∷ entries) h =
      for_each_key_file-HasNull root stops entries h
  for_each_key_file-HasNull root stops (file path ∷ entries) h =
      let rest = for_each_key_file libs disk root stops entries in
      elim (Bool-cases (text_eq path root)) [
        | inl here ↦ for_each_key_file-HasNull root stops entries (ground (arith, here))
        | inr there ↦
            let next : KeyFile → Result Error (Option KeyFile) =
              λ f. if stops f then ok (some f) else rest in
            let bound : (load_key_file libs disk path >>= next) ≡ panic = ground (arith, there) in
            elim (>>=-panic_cases (load_key_file libs disk path) next bound) [
              | inl bad ↦ load_key_file-HasNull path bad
              | inr (f, _, later) ↦ elim (Bool-cases (stops f)) [
                | inl stop ↦ absurd (ground (arith, stop))
                | inr go ↦ for_each_key_file-HasNull root stops entries (ground (arith, go))
              ]
            ]
      ]

  from_priv_key-ne-panic : (w : WalletSpec) → from_priv_key libs disk w ≢ panic
  unfolding from_priv_key
  from_priv_key-ne-panic w h = elim (Option-cases (disk.hex_to_ecdsa w.priv_key)) [
    | inl bad ↦ absurd (ground (arith, bad))
    | inr (key, read) ↦
        let settled = settle_address libs disk w (disk.pubkey_to_address key) in
        let next : Text → Result Error Plan =
          λ a. ok (loaded (record w { address = a; priv = some key; priv_key = [] })) in
        let bound : (settled >>= next) ≡ panic = ground (arith, read) in
        elim (>>=-panic_cases settled next bound) [
          | inl bad ↦ settle_address-ne-panic w (disk.pubkey_to_address key) bad
          | inr (a, _, later) ↦ cc
        ]
  ]

  from_key_file-HasNull : (w : WalletSpec) → from_key_file libs disk w ≡ panic → HasNull
  unfolding from_key_file
  from_key_file-HasNull w h =
      let path = key_file_path libs disk (located libs disk w) in
      let settle : KeyFile → Result Error Text =
        λ f. settle_address libs disk w (key_file_account libs disk f) in
      let finish : KeyFile → Text → Result Error Plan = λ f a. ok (
        unlocks (record (located libs disk w) { address = a }) (key_file_account libs disk f)
          path) in
      let bound : (load_key_file libs disk path >>= λ f. settle f >>= finish f) ≡ panic =
        ground arith in
      elim (>>=-panic_cases (load_key_file libs disk path) (λ f. settle f >>= finish f) bound) [
        | inl bad ↦ load_key_file-HasNull path bad
        | inr (f, _, later) ↦ elim (>>=-panic_cases (settle f) (finish f) later) [
          | inl bad ↦ absurd (settle_address-ne-panic w (key_file_account libs disk f) bad)
          | inr (a, _, last) ↦ absurd (ground arith)
        ]
      ]

  from_key_store-HasNull : (w : WalletSpec) → from_key_store libs disk w ≡ panic → HasNull
  unfolding from_key_store
  from_key_store-HasNull w h =
      let stops : KeyFile → Bool =
        λ f. text_eq (key_file_account libs disk f) (libs.hex_to_address w.address) in
      let found = for_each_key_file libs disk w.key_store stops (disk.walk w.key_store) in
      elim (>>=-panic_cases found (located_in_store libs disk w) h) [
        | inl bad ↦ for_each_key_file-HasNull w.key_store stops (disk.walk w.key_store) bad
        | inr (none, _, later) ↦ absurd (ground arith)
        | inr (some f, _, later) ↦ absurd (ground arith)
      ]

  plan-HasNull : (w : WalletSpec) → plan libs disk w ≡ panic → HasNull
  unfolding plan
  plan-HasNull w h = elim (Bool-cases (is_empty w.priv_key)) [
    | inr given ↦ absurd (from_priv_key-ne-panic w (ground (arith, given)))
    | inl no_key ↦ elim (Bool-cases (is_empty w.key_file)) [
      | inr given ↦ from_key_file-HasNull w (ground (arith, no_key, given))
      | inl no_file ↦
          elim (Bool-cases (is_empty w.key_store || is_empty w.address || is_empty w.password)) [
            | inl missing ↦ absurd (ground (arith, no_key, no_file, missing))
            | inr all ↦ from_key_store-HasNull w (ground (arith, no_key, no_file, all))
          ]
    ]
  ]

  module _ {K : Type 0} (cache : KeyCache K) where
    -- The key file of the wallet is found, and the key cache crashes when it opens it.
    abbrev pub Crashes : WalletSpec → K → K → Type 0
    Crashes w k k' =
        (w1 : WalletSpec) × (account : Text) × (path : Text) × (plan libs disk w
          ≡ ok (unlocks w1 account path))
        × (cache.private_key account w1.password (cache.set_path account path k) ≡ (crashed, k'))

    checked_key-panic :
        (w : WalletSpec) (account path : Text) (r : Opened × K) (k' : K)
        → checked_key libs disk cache w account path r ≡ (panic, k')
        → r ≡ (crashed, k')
    checked_key-panic w account path (crashed, k1) k' h = ground arith
    checked_key-panic w account path (refused, k1) k' h = cc
    checked_key-panic w account path (opened key, k1) k' h = absurd (ground arith)

    carry_out-panic :
        (w : WalletSpec) (p : Result Error Plan) (k k' : K)
        → plan libs disk w ≡ p
        → carry_out libs disk cache p k ≡ (panic, k')
        → (p ≡ panic) ⊎ Crashes w k k'
    unfolding unlock
    carry_out-panic w (ok (loaded w1)) k k' q h = cc
    carry_out-panic w (ok (unlocks w1 account path)) k k' q h =
        inr (w1, account, path, q, checked_key-panic w1 account path _ k' h)
    carry_out-panic w (err e) k k' q h = cc
    carry_out-panic w panic k k' q h = inl refl

    -- The validation of a wallet panics only if its entry is null, if some key file on the disk holds
    -- the JSON text `null`, or if the key cache crashes on the key file that is found for the wallet.
    pub validate_wallet-HasNull :
        (w : Option WalletSpec) (k k' : K)
        → validate_wallet libs disk cache w k ≡ (panic, k')
        → (w ≡ none) ⊎ (HasNull ⊎ ((given : WalletSpec) × (w ≡ some given) × Crashes given k k'))
    unfolding validate_wallet
    validate_wallet-HasNull none k k' h = inl refl
    validate_wallet-HasNull (some w) k k' h =
        elim (carry_out-panic w (plan libs disk w) k k' refl h) [
          | inl bad ↦ inr (inl (plan-HasNull w bad))
          | inr crash ↦ inr (inr (w, refl, crash))
        ]
