-- ===== src/Wallets/Selection.antt =====
-- The selection of wallets by a regular expression.
use mathlib.Core.Logic.{∥∥₁_elim}
use mathlib.Core.Bool.{Bool-set}
use mathlib.Core.List.{Perm}
use ethereum_playbook.Common.{
  Bool, none, some, List, [], ◌≡◌, ap, sym, arith, ◌≢◌, true, ◌&&◌, if◌then◌else◌, Bool-cases, inl,
  inr, ◌∙◌,
}
use ethereum_playbook.Common.Text.{Text}
use ethereum_playbook.Common.Maps.{keys, member, lookup_of_member, lookup_of_not-member}
use ethereum_playbook.Common.Sort.{
  matching, sort-matching-permᴰ, IsSorted, sort_strings-IsSorted, member-permᴰ,
  member-sort-matching,
}
use ethereum_playbook.Extern.{Libs}
use ethereum_playbook.Wallets.{Wallets, get_all, get_one, pointer}

texts_set : IsSet (List Text)
texts_set = hlevel

-- The selected names are in order, and they are exactly the wallet names that the expression matches.
pub get_all_lem :
    (wallets : Wallets) (rx : Text → Bool)
    → IsSorted (get_all wallets rx)
      × ((name : Text) → member name (get_all wallets rx) ≡ (member name (keys wallets) && rx name))
unfolding get_all
get_all_lem wallets rx = (
  sort_strings-IsSorted (matching rx (keys wallets)),
  (λ name. member-sort-matching rx name (keys wallets)),
)

pointer-member :
    (wallets : Wallets) (name : Text)
    → pointer wallets name ≡ (if member name (keys wallets) then some name else none)
pointer-member wallets name = elim (Bool-cases (member name (keys wallets))) [
  | inl m ↦ let (w, e) = lookup_of_member name wallets m in ground (arith, e, m)
  | inr n ↦ ground (arith, lookup_of_not-member name wallets n, n)
]

module _ (w1 w2 : Wallets) (same : Perm (keys w1) (keys w2)) where
  same_names : (rx : Text → Bool) → get_all w1 rx ≡ get_all w2 rx
  unfolding get_all
  same_names rx = ∥∥₁_elim same (texts_set _ _) (λ d. sort-matching-permᴰ rx d)

  same_members : (name : Text) → member name (keys w1) ≡ member name (keys w2)
  same_members name = ∥∥₁_elim same (Bool-set _ _) (λ d. member-permᴰ name d)

  same_pointer : (name : Text) → pointer w1 name ≡ pointer w2 name
  same_pointer name = cc (pointer-member w1 name, pointer-member w2 name, same_members name)

  -- Two maps with the same wallet names, met in whatever order, give GetAll the same wallets in the
  -- same order, and GetOne the same wallet for the same sticky text.
  pub selection_order :
      (libs : Libs) (rx : Text → Bool) (hash : Text)
      → (get_all w1 rx ≡ get_all w2 rx) × (get_one libs w1 rx hash ≡ get_one libs w2 rx hash)
  unfolding get_one
  selection_order libs rx hash = (same_names rx, one)
    where
      one : get_one libs w1 rx hash ≡ get_one libs w2 rx hash
      one =
          ap (λ names. pointer w1 (libs.get_node names hash)) (same_names rx)
          ∙ same_pointer (libs.get_node (get_all w2 rx) hash)

-- With a hash ring that gives one of its nodes, GetOne gives a wallet that the expression matches
-- whenever there is one.
pub get_one_lem :
    (libs : Libs) (wallets : Wallets) (rx : Text → Bool) (hash : Text)
    → ((names : List Text) → names ≢ [] → member (libs.get_node names hash) names ≡ true)
    → get_all wallets rx ≢ []
    → (name : Text) × (get_one libs wallets rx hash ≡ some name) × (rx name ≡ true)
unfolding get_one
get_one_lem libs wallets rx hash ring some_match =
    let name = libs.get_node (get_all wallets rx) hash in
    let chosen = ring (get_all wallets rx) some_match in
    let both = sym ((get_all_lem wallets rx).1 name) ∙ chosen in
    (name, ground (arith, both, pointer-member wallets name), ground (arith, both))
