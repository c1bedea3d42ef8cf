-- ===== src/Wallets/Keys.antt =====
-- model/wallets.go: WalletSpec.Validate, which finds the key of a wallet in the specification, in a
-- key file or in a key store, and the key files.
pub mod Files
pub mod Search
pub mod Unlock
pub mod Refusal
use ethereum_playbook.Common.{
  Bool, not, ◌&&◌, ◌||◌, Option, none, some, List, [], ◌∷◌, Result, ok, err, panic, ◌>>=◌, ◌>>◌,
  guard, or_err, if◌then◌else◌, is_empty,
}
use ethereum_playbook.Common.Text.{Text, codes, text_eq, has_prefix, trim_prefix, to_lower}
use ethereum_playbook.Common.Maps.{Map}
use ethereum_playbook.Errors.{
  Error, bad_address, bad_private_key, address_differs, no_password, no_key_file, bad_key_file,
  bad_key_store, key_not_located, key_not_loaded,
}
use ethereum_playbook.Extern.{Libs}
use ethereum_playbook.Wallets.{Wallets, WalletSpec}

-- What ioutil.ReadFile and json.Unmarshal make of a key file: an error, the pointer nil (the JSON text
-- `null`), or an object, of which only the address is read.
pub data KeyJson : Type 0 where
  unreadable null_json : KeyJson
  key_json : Text → KeyJson

-- A call of the function that filepath.Walk is given: with an error, with a directory, or with a file.
pub data WalkEntry : Type 0 where
  walk_error : WalkEntry
  directory file : Text → WalkEntry

-- go-ethereum/crypto, path/filepath, and the disk. `walk` lists the calls that filepath.Walk makes on a
-- key store while the function skips each directory below it.
pub record Disk : Type 0 where
  pub hex_to_ecdsa : Text → Option Text
  pub pubkey_to_address : Text → Text
  pub dir : Text → Text
  pub base : Text → Text
  pub read_key_file : Text → KeyJson
  pub walk : Text → List WalkEntry

-- What PrivateKey answers: the key, that there is none, or a panic, which go-ethereum's keystore ends in
-- when the parameters of a key file are not what it expects.
pub data Opened : Type 0 where
  opened : Text → Opened
  refused crashed : Opened

-- ethfw.KeyCache, whose state is `K`: PrivateKey reads the file at the path of an account.
pub record KeyCache (K : Type 0) : Type 0 where
  pub set_path : Text → Text → K → K
  pub unset_path : Text → Text → K → K
  pub private_key : Text → Text → K → Opened × K

pub record KeyFile : Type 0 where
  pub address : Text
  pub path : Text

abbrev no_address : Text
no_address = codes "0x0"

abbrev pub is_unset : Text → Bool
is_unset address = is_empty address || text_eq address no_address

abbrev pub key_store_scheme : Text
key_store_scheme = codes "keystore://"

-- What is left to do once the key is found: nothing, or to unlock the key file of an account.
pub data Plan : Type 0 where
  loaded : WalletSpec → Plan
  unlocks : WalletSpec → Text → Text → Plan

-- An entry of the section that is not null.
abbrev pub present : Text × WalletSpec → Text × Option WalletSpec
present (name, w) = (name, some w)

module _ (libs : Libs) (disk : Disk) where
  abbrev checked_key_file : Text → KeyJson → Result Error KeyFile
  checked_key_file path unreadable = err bad_key_file
  checked_key_file path null_json = panic
  checked_key_file path (key_json address) = do
    guard (not (is_empty address)) bad_key_file
    guard (libs.is_hex_address address) bad_key_file
    ok (record { address = address; path = path })

  -- loadKeyFile
  unfoldable pub load_key_file : Text → Result Error KeyFile
  load_key_file path = checked_key_file path (disk.read_key_file path)

  -- forEachKeyFile: the callback answers with `true` for errStopRange, and the file at which it did so
  -- is the result.
  unfoldable pub for_each_key_file :
      Text → (KeyFile → Bool) → List WalkEntry → Result Error (Option KeyFile)
  for_each_key_file root stops [] = ok none
  for_each_key_file root stops (walk_error ∷ entries) = err bad_key_store
  for_each_key_file root stops (directory path ∷ entries) = for_each_key_file root stops entries
  for_each_key_file root stops (file path ∷ entries) =
      let rest = for_each_key_file root stops entries in
      if text_eq path root
      then rest
      else (do key_file ← load_key_file path; if stops key_file then ok (some key_file) else rest)

  -- KeyFile.HexToAddress
  abbrev pub key_file_account : KeyFile → Text
  key_file_account f = libs.hex_to_address f.address

  -- The address of the wallet: the key's, in lower case, where none is given; otherwise the given one,
  -- which must be the key's.
  abbrev pub settle_address : WalletSpec → Text → Result Error Text
  settle_address w account =
      if is_unset w.address
      then ok (to_lower (libs.address_hex account))
      else if text_eq account (libs.hex_to_address w.address)
      then ok w.address
      else err address_differs

  -- "private key is being loaded from string"; the text is erased.
  unfoldable pub from_priv_key : WalletSpec → Result Error Plan
  from_priv_key w = do
    key ← or_err bad_private_key (disk.hex_to_ecdsa w.priv_key)
    address ← settle_address w (disk.pubkey_to_address key)
    ok (loaded (record w { address = address; priv = some key; priv_key = [] }))

  -- Where the key file is: a path behind "keystore://" replaces the key store.
  unfoldable pub located : WalletSpec → WalletSpec
  located w =
      if has_prefix w.key_file key_store_scheme
      then (let path = trim_prefix w.key_file key_store_scheme in
          record w { key_store = disk.dir (libs.from_slash path); key_file = disk.base path })
      else (let both = libs.is_abs w.key_store && libs.is_abs w.key_file in
          let store = if both then [] else w.key_store in
          if libs.is_abs w.key_store
          then record w { key_store = libs.from_slash store }
          else if libs.is_abs w.key_file
          then record w { key_file = libs.from_slash w.key_file }
          else w)

  abbrev pub key_file_path : WalletSpec → Text
  key_file_path w = libs.join_path w.key_store w.key_file

  unfoldable pub from_key_file : WalletSpec → Result Error Plan
  from_key_file w = do
    guard (not (is_empty w.password)) no_password
    guard (libs.is_file (key_file_path (located w))) no_key_file
    f ← load_key_file (key_file_path (located w))
    address ← settle_address w (key_file_account f)
    ok (
        unlocks (record (located w) { address = address }) (key_file_account f)
          (key_file_path (located w)))

  abbrev located_in_store : WalletSpec → Option KeyFile → Result Error Plan
  located_in_store w none = err key_not_located
  located_in_store w (some f) = ok (unlocks w (libs.hex_to_address w.address) f.path)

  -- The key file with the account of the wallet.
  unfoldable pub from_key_store : WalletSpec → Result Error Plan
  from_key_store w = do
    f ←
        for_each_key_file w.key_store
          (λ f. text_eq (key_file_account f) (libs.hex_to_address w.address))
          (disk.walk w.key_store)
    located_in_store w f

  -- WalletSpec.Validate up to the key cache.
  unfoldable pub plan : WalletSpec → Result Error Plan
  plan w = do
    guard (is_unset w.address || libs.is_hex_address w.address) bad_address
    if not (is_empty w.priv_key)
        then from_priv_key w
        else if not (is_empty w.key_file)
        then from_key_file w
        else if is_empty w.key_store || is_empty w.address || is_empty w.password
        then ok (loaded w)
        else from_key_store w

  module _ {K : Type 0} (cache : KeyCache K) where
    abbrev checked_key : WalletSpec → Text → Text → Opened × K → Result Error WalletSpec × K
    checked_key w account path (crashed, k) = (panic, k)
    checked_key w account path (refused, k) = (err key_not_loaded, cache.unset_path account path k)
    checked_key w account path (opened key, k) =
        if text_eq (disk.pubkey_to_address key) account
        then (ok w, k)
        else (err address_differs, cache.unset_path account path k)

    -- The key file is opened once, with the password; a path that fails is taken back.
    unfoldable pub unlock : WalletSpec → Text → Text → K → Result Error WalletSpec × K
    unlock w account path k =
        checked_key w account path
          (cache.private_key account w.password (cache.set_path account path k))

    abbrev pub carry_out : Result Error Plan → K → Result Error WalletSpec × K
    carry_out (ok (loaded w)) k = (ok w, k)
    carry_out (ok (unlocks w account path)) k = unlock w account path k
    carry_out (err e) k = (err e, k)
    carry_out panic k = (panic, k)

    -- WalletSpec.Validate; a null entry of the section is a nil receiver, `none`.
    unfoldable pub validate_wallet : Option WalletSpec → K → Result Error WalletSpec × K
    validate_wallet none k = (panic, k)
    validate_wallet (some w) k = carry_out (plan w) k

    abbrev add_wallet : Text → WalletSpec → Result Error Wallets × K → Result Error Wallets × K
    add_wallet name w (ok ws, k) = (ok ((name, w) ∷ ws), k)
    add_wallet name w (err e, k) = (err e, k)
    add_wallet name w (panic, k) = (panic, k)

    abbrev then_wallets :
        Text
        → (K → Result Error Wallets × K)
        → Result Error WalletSpec × K
        → Result Error Wallets × K
    then_wallets name rest (ok w, k) = add_wallet name w (rest k)
    then_wallets name rest (err e, k) = (err e, k)
    then_wallets name rest (panic, k) = (panic, k)

    -- Wallets.Validate
    unfoldable pub validate_wallets : Map (Option WalletSpec) → K → Result Error Wallets × K
    validate_wallets [] k = (ok [], k)
    validate_wallets ((name, w) ∷ ws) k =
        then_wallets name (validate_wallets ws) (validate_wallet w k)
