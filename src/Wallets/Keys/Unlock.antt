-- ===== src/Wallets/Keys/Unlock.antt =====
-- What a wallet that validation accepts can sign with.
use ethereum_playbook.Common.{
  Bool, true, ◌||◌, Option, none, some, [], ◌∷◌, Result, ok, err, panic, ◌>>=◌, or_err, >>=-eq-ok,
  is_empty, ◌≡◌, inl, inr, refl, sym, ap, ◌∙◌, arith, Bool-cases,
}
use ethereum_playbook.Common.Text.{Text, text_eq, text_eq_iff, to_lower}
use ethereum_playbook.Common.Maps.{Map, keys}
use ethereum_playbook.Errors.{Error, bad_private_key}
use ethereum_playbook.Extern.{Libs}
use ethereum_playbook.Wallets.{Wallets, WalletSpec}
use ethereum_playbook.Wallets.Keys.Search.{for_each_key_file-found}
use ethereum_playbook.Wallets.Keys.{
  Opened, opened, refused, crashed, Disk, KeyCache, KeyFile, Plan, loaded, unlocks, is_unset,
  settle_address, key_file_account, key_file_path, load_key_file, for_each_key_file, from_priv_key,
  located, from_key_file, located_in_store, from_key_store, plan, checked_key, unlock, carry_out,
  validate_wallet, validate_wallets, add_wallet, then_wallets,
}

-- Address.Hex, in lower case, is read back by HexToAddress.
pub record ReadsBack (libs : Libs) (disk : Disk) : Type 0 where
  pub public_key :
      (key : Text)
      → libs.hex_to_address (to_lower (libs.address_hex (disk.pubkey_to_address key)))
        ≡ disk.pubkey_to_address key
  pub key_file :
      (s : Text)
      → libs.hex_to_address (to_lower (libs.address_hex (libs.hex_to_address s)))
        ≡ libs.hex_to_address s

module _ (libs : Libs) (disk : Disk) {K : Type 0} (cache : KeyCache K) where
  -- A wallet after its validation, which leaves the cache `k'` where it found `k`: with the key of its
  -- own address in memory and its text erased; or with a readable key file for its address, at a path
  -- that is set in the cache and from which the cache opens the key of that address with the password,
  -- its last step; or without a key and a key file, and without all that a search of a key store needs.
  pub data IsUnlocked (w : WalletSpec) (k k' : K) : Type 0 where
    by_key :
        (key : Text)
        → w.priv ≡ some key
        → w.priv_key ≡ []
        → disk.pubkey_to_address key ≡ libs.hex_to_address w.address
        → k' ≡ k
        → IsUnlocked w k k'
    by_file :
        (key path : Text) (f : KeyFile)
        → load_key_file libs disk path ≡ ok f
        → key_file_account libs disk f ≡ libs.hex_to_address w.address
        → cache.private_key
            (libs.hex_to_address w.address)
            w.password
            (cache.set_path (libs.hex_to_address w.address) path k)
          ≡ (opened key, k')
        → disk.pubkey_to_address key ≡ libs.hex_to_address w.address
        → IsUnlocked w k k'
    keyless :
        is_empty w.priv_key ≡ true
        → is_empty w.key_file ≡ true
        → (is_empty w.key_store || is_empty w.address || is_empty w.password) ≡ true
        → k' ≡ k
        → IsUnlocked w k k'

  -- The wallets one after another, each from the cache that the one before leaves.
  abbrev pub AllUnlocked : Wallets → K → K → Type 0
  AllUnlocked [] k k' = k' ≡ k
  AllUnlocked ((name, w) ∷ ws) k k' = (k1 : K) × IsUnlocked w k k1 × AllUnlocked ws k1 k'

module _ (libs : Libs) (disk : Disk) {K : Type 0} (cache : KeyCache K)
    (back : ReadsBack libs disk) where
  settle_address_lem :
      (w : WalletSpec) (account address : Text)
      → libs.hex_to_address (to_lower (libs.address_hex account)) ≡ account
      → settle_address libs disk w account ≡ ok address
      → libs.hex_to_address address ≡ account
  settle_address_lem w account address reads h = elim (Bool-cases (is_unset w.address)) [
    | inl unset ↦
        let q : to_lower (libs.address_hex account) ≡ address = ground (arith, unset) in
        ap libs.hex_to_address (sym q) ∙ reads
    | inr given ↦ elim (Bool-cases (text_eq account (libs.hex_to_address w.address))) [
      | inl same ↦
          let q : w.address ≡ address = ground (arith, given, same) in
          ap libs.hex_to_address (sym q) ∙ sym ((text_eq_iff _ _).0 same)
      | inr differs ↦ absurd (ground (arith, given, differs))
    ]
  ]

  -- A plan that the cache can carry out for the account of its wallet.
  abbrev IsSound : Plan → Type 0
  IsSound (loaded w) = (k : K) → IsUnlocked libs disk cache w k k
  IsSound (unlocks w account path) =
      (libs.hex_to_address w.address ≡ account)
      × (f : KeyFile) × (load_key_file libs disk path ≡ ok f)
      × (key_file_account libs disk f ≡ account)

  from_priv_key-IsSound : (w : WalletSpec) (p : Plan) → from_priv_key libs disk w ≡ ok p → IsSound p
  unfolding from_priv_key
  from_priv_key-IsSound w p h =
      let with_address : Text → Text → Plan =
        λ key address. loaded (record w { address = address; priv = some key; priv_key = [] }) in
      let (key, read, h1) =
        >>=-eq-ok (or_err bad_private_key (disk.hex_to_ecdsa w.priv_key))
          (λ key. settle_address libs disk w (disk.pubkey_to_address key) >>= λ a.
            ok (with_address key a))
          h in
      let (address, settled, done) =
        >>=-eq-ok (settle_address libs disk w (disk.pubkey_to_address key))
          (λ a. ok (with_address key a)) h1 in
      let q : p ≡ with_address key address = ground arith in
      let own =
        settle_address_lem w (disk.pubkey_to_address key) address (back.public_key key) settled in
      rw q (λ k. by_key key refl refl (sym own) refl)

  from_key_file-IsSound : (w : WalletSpec) (p : Plan) → from_key_file libs disk w ≡ ok p → IsSound p
  unfolding from_key_file
  from_key_file-IsSound w p h =
      let path = key_file_path libs disk (located libs disk w) in
      let with_file : KeyFile → Text → Plan = λ f address.
        unlocks (record (located libs disk w) { address = address }) (key_file_account libs disk f)
          path in
      let settle : KeyFile → Result Error Text =
        λ f. settle_address libs disk w (key_file_account libs disk f) in
      let bound : (load_key_file libs disk path >>= λ f. settle f >>= λ a. ok (with_file f a))
          ≡ ok p =
        ground arith in
      let (f, read, h1) =
        >>=-eq-ok (load_key_file libs disk path) (λ f. settle f >>= λ a. ok (with_file f a))
          bound in
      let (address, settled, done) = >>=-eq-ok (settle f) (λ a. ok (with_file f a)) h1 in
      let q : p ≡ with_file f address = ground arith in
      let own =
        settle_address_lem w (key_file_account libs disk f) address (back.key_file f.address)
          settled in
      rw q (own, f, read, refl)

  located_in_store-IsSound :
      (w : WalletSpec) (f : Option KeyFile) (p : Plan)
      → ((g : KeyFile)
          → f ≡ some g
          → (load_key_file libs disk g.path ≡ ok g)
            × (text_eq (key_file_account libs disk g) (libs.hex_to_address w.address) ≡ true))
      → located_in_store libs disk w f ≡ ok p
      → IsSound p
  located_in_store-IsSound w none p read h = cc
  located_in_store-IsSound w (some f) p read h =
      let q : p ≡ unlocks w (libs.hex_to_address w.address) f.path = ground arith in
      let (loads, same) = read f refl in rw q (refl, f, loads, (text_eq_iff _ _).0 same)

  from_key_store-IsSound :
      (w : WalletSpec) (p : Plan) → from_key_store libs disk w ≡ ok p → IsSound p
  unfolding from_key_store
  from_key_store-IsSound w p h =
      let stops : KeyFile → Bool =
        λ f. text_eq (key_file_account libs disk f) (libs.hex_to_address w.address) in
      let search = for_each_key_file libs disk w.key_store stops (disk.walk w.key_store) in
      let (f, found, done) = >>=-eq-ok search (located_in_store libs disk w) h in
      located_in_store-IsSound w f p
        (λ g q.
          for_each_key_file-found libs disk w.key_store stops (disk.walk w.key_store) g
            (found ∙ ap ok q))
        done

  plan-IsSound : (w : WalletSpec) (p : Plan) → plan libs disk w ≡ ok p → IsSound p
  unfolding plan
  plan-IsSound w p h = elim (Bool-cases (is_empty w.priv_key)) [
    | inr given ↦ from_priv_key-IsSound w p (ground (arith, given))
    | inl no_key ↦ elim (Bool-cases (is_empty w.key_file)) [
      | inr given ↦ from_key_file-IsSound w p (ground (arith, no_key, given))
      | inl no_file ↦
          elim (Bool-cases (is_empty w.key_store || is_empty w.address || is_empty w.password)) [
            | inl missing ↦
                let q : p ≡ loaded w = ground (arith, no_key, no_file, missing) in
                rw q (λ k. keyless no_key no_file missing refl)
            | inr all ↦ from_key_store-IsSound w p (ground (arith, no_key, no_file, all))
          ]
    ]
  ]

  checked_key-IsUnlocked :
      (w w' : WalletSpec) (account path : Text) (f : KeyFile) (k k' : K) (r : Opened × K)
      → cache.private_key account w.password (cache.set_path account path k) ≡ r
      → libs.hex_to_address w.address ≡ account
      → load_key_file libs disk path ≡ ok f
      → key_file_account libs disk f ≡ account
      → checked_key libs disk cache w account path r ≡ (ok w', k')
      → IsUnlocked libs disk cache w' k k'
  checked_key-IsUnlocked w w' account path f k k' (crashed, k1) read own loads of h = cc
  checked_key-IsUnlocked w w' account path f k k' (refused, k1) read own loads of h = cc
  checked_key-IsUnlocked w w' account path f k k' (opened key, k1) read own loads of h =
      elim (Bool-cases (text_eq (disk.pubkey_to_address key) account)) [
        | inr differs ↦ absurd (ground (arith, differs))
        | inl same ↦
            let q : w ≡ w' = ground (arith, same) in
            let left : k1 ≡ k' = ground (arith, same) in
            rw (sym q, sym left)
              (by_file key path f loads (of ∙ sym own) (rw own read)
                ((text_eq_iff _ _).0 same ∙ sym own))
      ]

  carry_out-IsUnlocked :
      (p : Result Error Plan) (w' : WalletSpec) (k k' : K)
      → ((q : Plan) → p ≡ ok q → IsSound q)
      → carry_out libs disk cache p k ≡ (ok w', k')
      → IsUnlocked libs disk cache w' k k'
  unfolding unlock
  carry_out-IsUnlocked (err e) w' k k' sound h = cc
  carry_out-IsUnlocked panic w' k k' sound h = cc
  carry_out-IsUnlocked (ok (loaded w)) w' k k' sound h =
      let q : w ≡ w' = ground arith in
      let left : k ≡ k' = ground arith in rw (sym q, sym left) (sound (loaded w) refl k)
  carry_out-IsUnlocked (ok (unlocks w account path)) w' k k' sound h =
      let (own, f, loads, of) = sound (unlocks w account path) refl in
      checked_key-IsUnlocked w w' account path f k k' _ refl own loads of h

  validate_wallet-IsUnlocked :
      (w : Option WalletSpec) (w' : WalletSpec) (k k' : K)
      → validate_wallet libs disk cache w k ≡ (ok w', k')
      → IsUnlocked libs disk cache w' k k'
  unfolding validate_wallet
  validate_wallet-IsUnlocked none w' k k' h = cc
  validate_wallet-IsUnlocked (some w) w' k k' h =
      carry_out-IsUnlocked (plan libs disk w) w' k k' (plan-IsSound w) h

  add_wallet-ok :
      (name : Text) (w : WalletSpec) (r : Result Error Wallets × K) (ws : Wallets) (k : K)
      → add_wallet libs disk cache name w r ≡ (ok ws, k)
      → (rest : Wallets) × (r ≡ (ok rest, k)) × (ws ≡ (name, w) ∷ rest)
  add_wallet-ok name w (ok rest, k1) ws k h = (rest, ground arith, ground arith)
  add_wallet-ok name w (err e, k1) ws k h = cc
  add_wallet-ok name w (panic, k1) ws k h = cc

  then_wallets-ok :
      (name : Text) (rest : K → Result Error Wallets × K) (r : Result Error WalletSpec × K)
      (ws : Wallets) (k : K)
      → then_wallets libs disk cache name rest r ≡ (ok ws, k)
      → (w : WalletSpec) × (k1 : K) × (r ≡ (ok w, k1))
        × (add_wallet libs disk cache name w (rest k1) ≡ (ok ws, k))
  then_wallets-ok name rest (ok w, k1) ws k h = (w, k1, refl, h)
  then_wallets-ok name rest (err e, k1) ws k h = cc
  then_wallets-ok name rest (panic, k1) ws k h = cc

  -- When the validation of the wallets succeeds, each of them is unlocked or keyless, one after
  -- another from the key cache that the validation starts with to the one that it leaves, and the names
  -- are the same as before, in the same order. Addresses are taken to be read back as they are printed.
  pub validate_wallets-AllUnlocked :
      (ws : Map (Option WalletSpec)) (ws' : Wallets) (k k' : K)
      → validate_wallets libs disk cache ws k ≡ (ok ws', k')
      → (keys ws' ≡ keys ws) × AllUnlocked libs disk cache ws' k k'
  unfolding validate_wallets
  validate_wallets-AllUnlocked [] ws' k k' h =
      let q : ws' ≡ [] = ground arith in let left : k' ≡ k = ground arith in rw q (refl, left)
  validate_wallets-AllUnlocked ((name, w) ∷ ws) ws' k k' h =
      let (w1, k1, first, more) =
        then_wallets-ok name (validate_wallets libs disk cache ws)
          (validate_wallet libs disk cache w k) ws' k' h in
      let (rest, others, q) =
        add_wallet-ok name w1 (validate_wallets libs disk cache ws k1) ws' k' more in
      let (same, all) = validate_wallets-AllUnlocked ws rest k1 k' others in
      rw q (ap (λ ns. name ∷ ns) same, (k1, validate_wallet-IsUnlocked w w1 k k1 first, all))
