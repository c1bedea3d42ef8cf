-- ===== src/Tests/Keys.antt =====
-- The validation of wallets with keys at concrete inputs.
use ethereum_playbook.Common.{
  if◌then◌else◌, ℕ, suc, none, some, List, [], ◌∷◌, ok, err, panic, ◌≡◌, ◌⊎◌, refl,
}
use ethereum_playbook.Common.Text.{Text, codes, text_eq}
use ethereum_playbook.Common.Maps.{keys}
use ethereum_playbook.Errors.{key_not_loaded}
use ethereum_playbook.Extern.{Libs}
use ethereum_playbook.Wallets.{Wallets, WalletSpec}
use ethereum_playbook.Wallets.Keys.{
  opened, refused, crashed, Disk, KeyCache, KeyJson, null_json, key_json, file, validate_wallet,
  validate_wallets,
}
use ethereum_playbook.Wallets.Keys.Unlock.{ReadsBack, AllUnlocked, validate_wallets-AllUnlocked}
use ethereum_playbook.Wallets.Keys.Refusal.{TakenBack, validate_wallet-TakenBack}
use ethereum_playbook.Wallets.Keys.Files.{HasNull, Crashes, validate_wallet-HasNull}
use ethereum_playbook.Tests.{test_libs}

-- A host with one address, whose keys all belong to it.
abbrev the_address : Text
the_address = codes "0xa1"

abbrev one_address : Libs
one_address = record test_libs { hex_to_address = λ s. the_address }

-- The key file "k" of that address, and "null", which holds a JSON null.
abbrev pub test_disk : Disk
test_disk = record {
  hex_to_ecdsa = λ s. some s;
  pubkey_to_address = λ key. the_address;
  dir = λ path. path;
  base = λ path. path;
  read_key_file = λ path. if text_eq path (codes "null") then null_json else key_json the_address;
  walk = λ root. file (codes "k") ∷ [];
}

-- The cache writes down what is asked of it, the last first, and opens all files, none, or crashes.
abbrev pub opening : KeyCache (List Text)
opening = record {
  set_path = λ account path k. codes "set" ∷ account ∷ path ∷ k;
  unset_path = λ account path k. codes "unset" ∷ account ∷ path ∷ k;
  private_key = λ account password k. (opened (codes "key"), codes "open" ∷ k);
}

abbrev locked : KeyCache (List Text)
locked = record opening { private_key = λ account password k. (refused, k) }

abbrev broken : KeyCache (List Text)
broken = record opening { private_key = λ account password k. (crashed, k) }

abbrev stored : WalletSpec
stored = record {
  address = the_address;
  priv_key = [];
  password = codes "secret";
  key_store = codes "store";
  key_file = [];
  balance = none;
  priv = none;
}

abbrev with_key : WalletSpec
with_key = record stored { address = []; priv_key = codes "key" }

abbrev with_null : WalletSpec
with_null = record stored { key_file = codes "null" }

test_ReadsBack : ReadsBack one_address test_disk
test_ReadsBack = record { public_key = λ key. refl; key_file = λ s. refl }

abbrev key_loaded : WalletSpec
key_loaded = record stored { priv = some (codes "key") }

-- What opening the key file "k" asks of the cache.
abbrev asked : List Text
asked = codes "open" ∷ codes "set" ∷ the_address ∷ codes "k" ∷ []

-- What a wallet whose key file cannot be opened asks of the cache.
abbrev asked_in_vain : List Text
asked_in_vain = codes "unset" ∷ the_address ∷ codes "k" ∷ codes "set" ∷ the_address ∷ codes "k" ∷ []

validate_wallets-AllUnlocked_example :
    (keys ((codes "a", key_loaded) ∷ (codes "b", stored) ∷ [])
      ≡ keys ((codes "a", some with_key) ∷ (codes "b", some stored) ∷ []))
    × AllUnlocked one_address test_disk opening
        ((codes "a", key_loaded) ∷ (codes "b", stored) ∷ [])
        []
        asked
unfolding validate_wallets validate_wallet ethereum_playbook.Wallets.Keys.plan
    ethereum_playbook.Wallets.Keys.from_priv_key text_eq
    ethereum_playbook.Wallets.Keys.from_key_store ethereum_playbook.Wallets.Keys.for_each_key_file
    ethereum_playbook.Wallets.Keys.load_key_file ethereum_playbook.Wallets.Keys.unlock
    ethereum_playbook.Common.Text.to_lower
validate_wallets-AllUnlocked_example =
    validate_wallets-AllUnlocked one_address test_disk opening test_ReadsBack
      ((codes "a", some with_key) ∷ (codes "b", some stored) ∷ [])
      ((codes "a", key_loaded) ∷ (codes "b", stored) ∷ []) [] asked refl

validate_wallet-TakenBack_example : TakenBack one_address test_disk locked stored [] asked_in_vain
unfolding validate_wallet ethereum_playbook.Wallets.Keys.plan text_eq
    ethereum_playbook.Wallets.Keys.from_key_store ethereum_playbook.Wallets.Keys.for_each_key_file
    ethereum_playbook.Wallets.Keys.load_key_file ethereum_playbook.Wallets.Keys.unlock
validate_wallet-TakenBack_example =
    validate_wallet-TakenBack one_address test_disk locked stored key_not_loaded [] asked_in_vain
      refl

validate_wallet-HasNull_example :
    (some stored ≡ none)
    ⊎ (HasNull one_address test_disk
        ⊎ ((given : WalletSpec) × (some stored ≡ some given)
            × Crashes one_address test_disk broken given []
                (codes "set" ∷ the_address ∷ codes "k" ∷ [])))
unfolding validate_wallet ethereum_playbook.Wallets.Keys.plan text_eq
    ethereum_playbook.Wallets.Keys.from_key_store ethereum_playbook.Wallets.Keys.for_each_key_file
    ethereum_playbook.Wallets.Keys.load_key_file ethereum_playbook.Wallets.Keys.unlock
validate_wallet-HasNull_example =
    validate_wallet-HasNull one_address test_disk broken (some stored) []
      (codes "set" ∷ the_address ∷ codes "k" ∷ []) refl

test_nil_wallet : validate_wallet one_address test_disk opening none [] ≡ (panic, [])
unfolding validate_wallet
test_nil_wallet = refl

test_null_key_file : validate_wallet one_address test_disk opening (some with_null) [] ≡ (panic, [])
unfolding validate_wallet ethereum_playbook.Wallets.Keys.plan text_eq
    ethereum_playbook.Wallets.Keys.from_key_file ethereum_playbook.Wallets.Keys.load_key_file
    ethereum_playbook.Wallets.Keys.located ethereum_playbook.Common.Text.has_prefix
test_null_key_file = refl
