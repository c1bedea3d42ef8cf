-- ===== src/Common/Maps.antt =====
-- Go maps with string keys, as association lists in the order in which an iteration meets the keys.
use mathlib.Core.Path.{◌≡◌, refl, ◌∙◌}
use mathlib.Core.Bool.{Bool, true, false, ◌||◌}
use mathlib.Core.Option.{Option, none, some}
use mathlib.Core.List.{List, [], ◌∷◌, ◌++◌}
use native.Mathlib.Omega.{arith}
use mathlib.Core.Logic.{◌⊎◌, inl, inr}
use ethereum_playbook.Common.Tests.{if◌then◌else◌, Bool-cases}
use ethereum_playbook.Common.Text.{Text, text_eq, text_eq_iff, text_eq_refl}

abbrev pub Map {ℓ} : Type ℓ → Type ℓ
Map V = List (Text × V)

module _ {ℓ} {V : Type ℓ} where
  unfoldable pub lookup : Text → Map V → Option V
  lookup k [] = none
  lookup k ((j, v) ∷ m) = if text_eq j k then some v else lookup k m

  -- `m[k] = v`, a new key at the end
  unfoldable pub insert : Text → V → Map V → Map V
  insert k v [] = (k, v) ∷ []
  insert k v ((j, w) ∷ m) = if text_eq j k then (j, v) ∷ m else (j, w) ∷ insert k v m

  abbrev pub keys : Map V → List Text
  keys [] = []
  keys ((k, v) ∷ m) = k ∷ keys m

  pub lookup-insert :
      (k j : Text) (v : V) (m : Map V)
      → lookup j (insert k v m) ≡ (if text_eq k j then some v else lookup j m)
  unfolding lookup insert
  lookup-insert k j v [] = refl
  lookup-insert k j v ((i, w) ∷ m) =
      ground (arith, text_eq_iff k j, text_eq_iff i k, text_eq_iff i j, lookup-insert k j v m)

-- Whether a text is among those of a list.
unfoldable pub member : Text → List Text → Bool
member k [] = false
member k (j ∷ js) = text_eq j k || member k js

-- A key is among the keys exactly when it has a value.
pub lookup_of_member {ℓ} :
    {V : Type ℓ} (k : Text) (m : Map V) → member k (keys m) ≡ true → (v : V) × (lookup k m ≡ some v)
unfolding lookup member
lookup_of_member k [] h = cc
lookup_of_member k ((j, v) ∷ m) h = elim (Bool-cases (text_eq j k)) [
  | inl e ↦ (v, rw e)
  | inr n ↦ rw n (lookup_of_member k m (ground arith))
]

pub lookup_of_not-member {ℓ} :
    {V : Type ℓ} (k : Text) (m : Map V) → member k (keys m) ≡ false → lookup k m ≡ none
unfolding lookup member
lookup_of_not-member k [] h = refl
lookup_of_not-member k ((j, v) ∷ m) h = ground (arith, lookup_of_not-member k m)

-- What is under a name after a write: the value that was written, or what was there.
pub lookup-insert_cases {ℓ} :
    {V : Type ℓ} (k j : Text) (v w : V) (m : Map V)
    → lookup j (insert k v m) ≡ some w
    → ((k ≡ j) × (w ≡ v)) ⊎ (lookup j m ≡ some w)
lookup-insert_cases k j v w m h = elim (Bool-cases (text_eq k j)) [
  | inl same ↦ inl ((text_eq_iff k j).0 same, ground (arith, lookup-insert k j v m, same))
  | inr other ↦ inr (ground (arith, lookup-insert k j v m, other))
]

pub lookup-insert_own {ℓ} :
    {V : Type ℓ} (k : Text) (v : V) (m : Map V) → lookup k (insert k v m) ≡ some v
lookup-insert_own k v m = ground (arith, lookup-insert k k v m, text_eq_refl k)

pub lookup-insert_other {ℓ} :
    {V : Type ℓ} (k j : Text) (v : V) (m : Map V)
    → text_eq k j ≡ false
    → lookup j (insert k v m) ≡ lookup j m
lookup-insert_other k j v m other = lookup-insert k j v m ∙ rw other refl

-- Adds a text to a set, which is a list with no text twice.
unfoldable pub add : Text → List Text → List Text
unfolding member
add k s = if member k s then s else s ++ k ∷ []
