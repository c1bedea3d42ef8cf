-- ===== src/Params/Refs/Resolve.antt =====
-- References to command-line arguments: those that resolve are in range, and which resolve.
use ethereum_playbook.Common.{
  ℕ, zero, suc, ◌<◌, Option, some, List, get_elem?, ok, ◌≡◌, arith, get_elem?-some, length, leb,
  if◌then◌else◌,
}
use ethereum_playbook.Common.Text.{Text}
use ethereum_playbook.Common.Int.{pos, negsuc}
use ethereum_playbook.Params.Refs.{arg_reference_id, new_arg_reference, index}
use ethereum_playbook.Context.{app_args}

module _ (args : List Text) (value : Text) where
  new_arg_reference-lt : (n : ℕ) → new_arg_reference args value ≡ ok (pos n) → n < length args
  unfolding new_arg_reference
  new_arg_reference-lt n h = ground arith

  -- An argument reference that is not marked as missing is within the arguments: reading it does not
  -- panic.
  pub new_arg_reference-index :
      (n : ℕ) → new_arg_reference args value ≡ ok (pos n) → (a : Text) × (index args (pos n) ≡ ok a)
  new_arg_reference-index n h =
      let (a, e) = get_elem?-some args n (new_arg_reference-lt n h) in (a, ground (arith, e))

-- What `$n` stands for: the command's name, or the n-th argument of the command line.
abbrev pub arg_text : Text → List Text → ℕ → Option Text
arg_text name cli zero = some name
arg_text name cli (suc n) = get_elem? cli n

index-app_args :
    (name : Text) (cli : List Text) (n : ℕ) (a : Text)
    → arg_text name cli n ≡ some a
    → index (app_args name cli) (pos n) ≡ ok a
unfolding app_args
index-app_args name cli zero a h = ground (arith, h)
index-app_args name cli (suc n) a h = ground (arith, h)

-- `$n` is accepted as a reference exactly when there is an n-th argument, and is the missing reference
-- -1 past the last one; reading it gives the command's name for `$0`, and the n-th argument of the
-- command line otherwise.
pub new_arg_reference_iff :
    (name value : Text) (cli : List Text) (n : ℕ)
    → arg_reference_id value ≡ ok (pos n)
    → (new_arg_reference (app_args name cli) value
        ≡ ok (if leb n (length cli) then pos n else negsuc 0))
      × ((a : Text) → arg_text name cli n ≡ some a → index (app_args name cli) (pos n) ≡ ok a)
unfolding new_arg_reference app_args
new_arg_reference_iff name value cli n h = (rw h (ground arith), index-app_args name cli n)
