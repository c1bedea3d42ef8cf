-- ===== src/Common/Sort.antt =====
-- sort.Strings: insertion sort by the bytewise order of texts. Any sort gives this list, since the
-- order is total and antisymmetric.
use mathlib.Core.List.{List, [], ◌∷◌, Permᴰ}
use mathlib.Core.Path.{◌≡◌, refl, ap, ◌∙◌}
use mathlib.Core.Logic.{inl, inr}
use mathlib.Core.Bool.{Bool, true, false, ◌&&◌, ◌||◌}
use native.Mathlib.Omega.{arith}
use ethereum_playbook.Common.Tests.{ltb, ◌==◌, if◌then◌else◌, Bool-cases}
use ethereum_playbook.Common.Text.{Text, text_eq, text_eq_iff}
use ethereum_playbook.Common.Maps.{member}

unfoldable pub text_leb : Text → Text → Bool
text_leb [] t = true
text_leb (x ∷ xs) [] = false
text_leb (x ∷ xs) (y ∷ ys) = ltb x y || (x == y) && text_leb xs ys

pub text_leb_total : (s t : Text) → text_leb s t ≡ false → text_leb t s ≡ true
unfolding text_leb
text_leb_total [] t h = cc
text_leb_total (x ∷ xs) [] h = refl
text_leb_total (x ∷ xs) (y ∷ ys) h = ground (arith, text_leb_total xs ys)

pub text_leb_antisymm : (s t : Text) → text_leb s t ≡ true → text_leb t s ≡ true → s ≡ t
unfolding text_leb
text_leb_antisymm [] [] h k = refl
text_leb_antisymm [] (y ∷ ys) h k = cc
text_leb_antisymm (x ∷ xs) [] h k = cc
text_leb_antisymm (x ∷ xs) (y ∷ ys) h k = ground (arith, text_leb_antisymm xs ys)

pub text_leb_trans :
    (s t u : Text) → text_leb s t ≡ true → text_leb t u ≡ true → text_leb s u ≡ true
unfolding text_leb
text_leb_trans [] t u h k = refl
text_leb_trans (x ∷ xs) [] u h k = cc
text_leb_trans (x ∷ xs) (y ∷ ys) [] h k = cc
text_leb_trans (x ∷ xs) (y ∷ ys) (z ∷ zs) h k = ground (arith, text_leb_trans xs ys zs)

unfoldable pub insert_sorted : Text → List Text → List Text
insert_sorted a [] = a ∷ []
insert_sorted a (x ∷ xs) = if text_leb a x then a ∷ x ∷ xs else x ∷ insert_sorted a xs

unfoldable pub sort_strings : List Text → List Text
unfolding insert_sorted
sort_strings [] = []
sort_strings (x ∷ xs) = insert_sorted x (sort_strings xs)

insert_sorted_comm :
    (a b : Text) (l : List Text)
    → insert_sorted a (insert_sorted b l) ≡ insert_sorted b (insert_sorted a l)
unfolding insert_sorted
insert_sorted_comm a b [] =
    ground (arith, text_leb_total a b, text_leb_total b a, text_leb_antisymm a b)
insert_sorted_comm a b (x ∷ xs) = ground (
  arith,
  insert_sorted_comm a b xs,
  text_leb_total a b,
  text_leb_antisymm a b,
  text_leb_trans a b x,
  text_leb_trans b a x,
  text_leb_total b a,
)

-- The names that pass a test, in order.
unfoldable pub matching : (Text → Bool) → List Text → List Text
matching p [] = []
matching p (x ∷ xs) = let rest = matching p xs in if p x then x ∷ rest else rest

sort-matching_cons :
    (p : Text → Bool) (x : Text) (xs : List Text)
    → sort_strings (matching p (x ∷ xs)) ≡ (
        if p x
        then insert_sorted x (sort_strings (matching p xs))
        else sort_strings (matching p xs))
unfolding matching sort_strings
sort-matching_cons p x xs = ground arith

-- The sorted matches depend on the names and not on their order.
pub sort-matching-permᴰ :
    (p : Text → Bool) {xs ys : List Text}
    → Permᴰ xs ys
    → sort_strings (matching p xs) ≡ sort_strings (matching p ys)
sort-matching-permᴰ p Permᴰ.nil = refl
sort-matching-permᴰ p (Permᴰ.cons {a = a} {b = b} {l₁ = xs} {l₂ = ys} e d) =
    cc (e, sort-matching_cons p a xs, sort-matching_cons p b ys, sort-matching-permᴰ p d)
sort-matching-permᴰ p (Permᴰ.swap {a = a} {b = b} {a' = a'} {b' = b'} {l = l} e f) = ground (
  arith,
  e,
  f,
  sort-matching_cons p a (b ∷ l),
  sort-matching_cons p b l,
  sort-matching_cons p a' (b' ∷ l),
  sort-matching_cons p b' l,
  insert_sorted_comm a b (sort_strings (matching p l)),
)
sort-matching-permᴰ p (Permᴰ.trans d e) = sort-matching-permᴰ p d ∙ sort-matching-permᴰ p e

pub member-permᴰ : (k : Text) {xs ys : List Text} → Permᴰ xs ys → member k xs ≡ member k ys
unfolding member
member-permᴰ k Permᴰ.nil = refl
member-permᴰ k (Permᴰ.cons {a = a} {b = b} e d) = cc (ap (λ x. text_eq x k) e, member-permᴰ k d)
member-permᴰ k (Permᴰ.swap {a = a} {b = b} {a' = a'} {b' = b'} e f) =
    ground (arith, ap (λ x. text_eq x k) e, ap (λ x. text_eq x k) f)
member-permᴰ k (Permᴰ.trans d e) = member-permᴰ k d ∙ member-permᴰ k e

member-insert_sorted :
    (k a : Text) (l : List Text) → member k (insert_sorted a l) ≡ (text_eq a k || member k l)
unfolding member insert_sorted
member-insert_sorted k a [] = refl
member-insert_sorted k a (x ∷ xs) = ground (arith, member-insert_sorted k a xs)

pub member-sort_strings : (k : Text) (l : List Text) → member k (sort_strings l) ≡ member k l
unfolding member sort_strings
member-sort_strings k [] = refl
member-sort_strings k (x ∷ xs) =
    ground (arith, member-insert_sorted k x (sort_strings xs), member-sort_strings k xs)

member-matching :
    (p : Text → Bool) (k : Text) (l : List Text) → member k (matching p l) ≡ (member k l && p k)
unfolding member matching
member-matching p k [] = refl
member-matching p k (x ∷ xs) = elim (Bool-cases (text_eq x k)) [
  | inl e ↦
      let q : x ≡ k = (text_eq_iff x k).0 e in ground (arith, e, ap p q, member-matching p k xs)
  | inr n ↦ ground (arith, n, member-matching p k xs)
]

-- A name is among the sorted matches exactly when it is a name that passes the test.
pub member-sort-matching :
    (p : Text → Bool) (k : Text) (l : List Text)
    → member k (sort_strings (matching p l)) ≡ (member k l && p k)
member-sort-matching p k l = member-sort_strings k (matching p l) ∙ member-matching p k l

-- Each text is at most the next.
abbrev pub IsSorted : List Text → Type 0
IsSorted [] = Unit
IsSorted (x ∷ []) = Unit
IsSorted (x ∷ y ∷ l) = (text_leb x y ≡ true) × IsSorted (y ∷ l)

insert_sorted-IsSorted : (a : Text) (l : List Text) → IsSorted l → IsSorted (insert_sorted a l)
unfolding insert_sorted
insert_sorted-IsSorted a [] h = tt
insert_sorted-IsSorted a (x ∷ []) h = ground (arith, text_leb_total a x)
insert_sorted-IsSorted a (x ∷ y ∷ l) h =
    ground (arith, text_leb_total a x, text_leb_total a y, insert_sorted-IsSorted a (y ∷ l))

pub sort_strings-IsSorted : (l : List Text) → IsSorted (sort_strings l)
unfolding sort_strings
sort_strings-IsSorted [] = tt
sort_strings-IsSorted (x ∷ xs) =
    insert_sorted-IsSorted x (sort_strings xs) (sort_strings-IsSorted xs)
