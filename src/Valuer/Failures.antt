-- ===== src/Valuer/Failures.antt =====
-- When a value cannot be read: missing arguments, and expressions that are not integral.
use ethereum_playbook.Common.{
  ◌<◌, true, List, [], ◌∷◌, ◌++◌, Result, ok, err, panic, ◌>>=◌, >>=-eq-ok, ◌≡◌, refl, arith,
  length, All, Bool-cases, inl, inr, if◌then◌else◌,
}
use ethereum_playbook.Common.Text.{Text, split, join, to_lower}
use ethereum_playbook.Common.Int.{ℤ, pos, negsuc}
use ethereum_playbook.Extern.{Libs}
use ethereum_playbook.Wallets.{Wallets}
use ethereum_playbook.Params.Refs.{
  is_arg_ref, is_wallet_ref, arg_reference_id, new_arg_reference, add_id, has_id, add_part,
  add_result, count_parts, count_args_in,
}
use ethereum_playbook.Errors.{Error}
use ethereum_playbook.Valuer.{
  ExtendedValue, common_denominations, wallet_part, arg_part, replace_part, replace_parts, strip,
  evaluate, parse, count_args_using,
}

-- An argument reference that the arguments cover.
abbrev pub IsGiven : List Text → ℤ → Type 0
IsGiven args (pos n) = n < length args
IsGiven args (negsuc n) = ⊥

module _ (args : List Text) (wallets : Wallets) where
  arg_part-IsGiven :
      (part out : Text) (id : ℤ)
      → arg_part args part ≡ ok out
      → arg_reference_id part ≡ ok id
      → IsGiven args id
  unfolding arg_part new_arg_reference
  arg_part-IsGiven part out (pos n) h e = ground arith
  arg_part-IsGiven part out (negsuc n) h e = absurd (ground arith)

  add_id-IsGiven :
      (id : ℤ) (set : List ℤ)
      → IsGiven args id
      → All (IsGiven args) set
      → All (IsGiven args) (add_id id set)
  unfolding add_id
  add_id-IsGiven id set given all = elim (Bool-cases (has_id id set)) [
    | inl old ↦ rw old all
    | inr new ↦ rw new (given, all)
  ]

  add_part-IsGiven :
      (part out : Text) (set : List ℤ)
      → replace_part args wallets part ≡ ok out
      → All (IsGiven args) set
      → All (IsGiven args) (add_part part set)
  unfolding replace_part
  add_part-IsGiven part out set h all = elim (Bool-cases (is_arg_ref part)) [
    | inl r ↦ rw r (added r (arg_reference_id part) refl)
    | inr n ↦ rw n all
  ]
    where
      added :
          is_arg_ref part ≡ true
          → (id : Result Error ℤ) → arg_reference_id part ≡ id
          → All (IsGiven args) (add_result id set)
      added r (ok id) e =
          let (p, _, last) =
            >>=-eq-ok (if is_wallet_ref part then wallet_part wallets part else ok part)
              (λ p. if is_arg_ref part then arg_part args part else ok p) h in
          add_id-IsGiven id set (arg_part-IsGiven part out id (ground (arith, r, last)) e) all
      added r (err x) e = all
      added r panic e = all

  count_parts-IsGiven :
      (parts outs : List Text) (set : List ℤ)
      → replace_parts args wallets parts ≡ ok outs
      → All (IsGiven args) set
      → All (IsGiven args) (count_parts parts set)
  unfolding replace_parts count_parts
  count_parts-IsGiven [] outs set h all = all
  count_parts-IsGiven (part ∷ parts) outs set h all =
      let (out, first, rest) =
        >>=-eq-ok (replace_part args wallets part)
          (λ p. replace_parts args wallets parts >>= λ ps. ok (p ∷ ps)) h in
      let (tails, others, done) =
        >>=-eq-ok (replace_parts args wallets parts) (λ ps. ok (out ∷ ps)) rest in
      count_parts-IsGiven parts tails (add_part part set) others
        (add_part-IsGiven part out set first all)

-- A value that is read uses only arguments that were given: every argument that CountArgsUsing
-- counts in it is an index into the arguments.
pub parse-IsGiven :
    (libs : Libs) (args : List Text) (wallets : Wallets) (additional : List Text) (v : Text)
    (x : ExtendedValue)
    → parse libs args wallets additional v ≡ ok x
    → All (IsGiven args) (count_args_using v [])
unfolding parse count_args_using count_args_in
parse-IsGiven libs args wallets additional v x h =
    let (parts, replaced, rest) =
      >>=-eq-ok (replace_parts args wallets (split v 32))
        (λ parts.
          strip (common_denominations ++ additional)
            (record { rest = to_lower (join parts 32); denominator = [] })
          >>= evaluate libs)
        h in
    count_parts-IsGiven args wallets (split v 32) parts [] replaced tt
