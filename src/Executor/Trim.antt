-- ===== src/Executor/Trim.antt =====
-- The tuple that a VIEW command returns.
use ethereum_playbook.Common.{
  ℕ, zero, suc, ◌+◌, Bool, true, ◌&&◌, List, [], ◌∷◌, ◌++◌, ◌≡◌, ◌≢◌, ◌⊎◌, inl, inr, refl, arith,
  ap, Bool-cases, take, drop,
}
use ethereum_playbook.Values.{Value}
use ethereum_playbook.Executor.{is_nil_value, last_from, trim}

abbrev pub all_nil : List Value → Bool
all_nil [] = true
all_nil (v ∷ vs) = is_nil_value v && all_nil vs

last_from-cases :
    (i last : ℕ) (vs : List Value)
    → ((last_from i last vs ≡ last) × (all_nil vs ≡ true))
      ⊎ ((j : ℕ) × (last_from i last vs ≡ i + j) × (all_nil (drop (suc j) vs) ≡ true))
unfolding last_from
last_from-cases i last [] = inl (refl, refl)
last_from-cases i last (v ∷ vs) = elim (Bool-cases (is_nil_value v)) [
  | inl n ↦ elim (last_from-cases (suc i) last vs) [
    | inl (same, nils) ↦ inl (ground (arith, n, same), ground (arith, n, nils))
    | inr (j, at, nils) ↦ inr (suc j, ground (arith, n, at), nils)
  ]
  | inr s ↦ elim (last_from-cases (suc i) i vs) [
    | inl (same, nils) ↦ inr (0, ground (arith, s, same), nils)
    | inr (j, at, nils) ↦ inr (suc j, ground (arith, s, at), nils)
  ]
]

take-drop : (n : ℕ) (vs : List Value) → take n vs ++ drop n vs ≡ vs
take-drop zero vs = refl
take-drop (suc n) [] = refl
take-drop (suc n) (v ∷ vs) = ap (λ ws. v ∷ ws) (take-drop n vs)

-- Trim drops only nil values, and those at the end; from a storage that has a value slot it returns
-- at least one.
pub trim_lem :
    (v : Value) (vs : List Value)
    → (trim (v ∷ vs) ≢ [])
      × ((dropped : List Value) × (trim (v ∷ vs) ++ dropped ≡ v ∷ vs) × (all_nil dropped ≡ true))
unfolding trim
trim_lem v vs = (
  (λ h. absurd (ground arith)),
  elim (last_from-cases 0 0 (v ∷ vs)) [
    | inl (same, nils) ↦ (drop 1 (v ∷ vs), rw same (take-drop 1 (v ∷ vs)), ground (arith, nils))
    | inr (j, at, nils) ↦
        let at' : last_from 0 0 (v ∷ vs) ≡ j = ground (arith, at) in
        (drop (suc j) (v ∷ vs), rw at' (take-drop (suc j) (v ∷ vs)), nils)
  ],
)
