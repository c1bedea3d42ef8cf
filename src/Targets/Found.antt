-- ===== src/Targets/Found.antt =====
-- What a validated target guarantees of its commands.
use ethereum_playbook.Common.{
  Bool, true, false, not, ◌||◌, none, some, List, [], ◌∷◌, ok, if◌then◌else◌, >>=-eq-ok, ◌≡◌, refl,
  arith, Bool-cases, inl, inr, sym, ◌∙◌, ap, All,
}
use ethereum_playbook.Common.Text.{Text, text_eq}
use ethereum_playbook.Common.Maps.{Map, lookup, insert, keys, member}
use ethereum_playbook.Commands.{Env}
use ethereum_playbook.Targets.Steps.{
  Validated, as_call, as_view, as_write, validate_command-Validated,
}
use ethereum_playbook.Targets.{Cmds, name, is_deferred, validate_command, validate_target}

-- A name that a section has keeps its place when its command is written.
keys-insert {ℓ} :
    {V : Type ℓ} (k : Text) (v w : V) (m : Map V)
    → lookup k m ≡ some w
    → keys (insert k v m) ≡ keys m
unfolding lookup insert
keys-insert k v w [] h = cc
keys-insert k v w ((j, u) ∷ m) h = elim (Bool-cases (text_eq j k)) [
  | inl e ↦ rw e refl
  | inr n ↦ rw n (ap (λ ks. j ∷ ks) (keys-insert k v w m (ground (arith, n))))
]

member_of_lookup {ℓ} :
    {V : Type ℓ} (k : Text) (m : Map V) (v : V) → lookup k m ≡ some v → member k (keys m) ≡ true
unfolding lookup member
member_of_lookup k [] v h = cc
member_of_lookup k ((j, u) ∷ m) v h = elim (Bool-cases (text_eq j k)) [
  | inl e ↦ ground (arith, e)
  | inr n ↦ ground (arith, n, member_of_lookup k m v)
]

pub not-member_of_lookup {ℓ} :
    {V : Type ℓ} (k : Text) (m : Map V) → lookup k m ≡ none → member k (keys m) ≡ false
unfolding lookup member
not-member_of_lookup k [] h = refl
not-member_of_lookup k ((j, u) ∷ m) h = ground (arith, not-member_of_lookup k m)

-- The sections name the command, and only a WRITE command is deferred.
abbrev pub is_runnable : Cmds → Text → Bool
is_runnable cmds spec =
    if member (name spec) (keys cmds.calls) || member (name spec) (keys cmds.views)
    then not (is_deferred spec)
    else member (name spec) (keys cmds.writes)

abbrev pub SameNames : Cmds → Cmds → Type 0
SameNames c d =
    (keys c.calls ≡ keys d.calls) × (keys c.views ≡ keys d.views) × (keys c.writes ≡ keys d.writes)

same_runnable : (c d : Cmds) (spec : Text) → SameNames c d → is_runnable c spec ≡ is_runnable d spec
same_runnable c d spec (a, b, e) = rw a (rw b (rw e refl))

module _ (env : Env) where
  validated-runnable :
      (cmds cmds' : Cmds) (spec : Text)
      → Validated env cmds cmds' (name spec) (is_deferred spec)
      → (is_runnable cmds spec ≡ true) × SameNames cmds' cmds
  validated-runnable cmds cmds' spec (as_call c c' now found valid q) = (
    ground (arith, now, member_of_lookup (name spec) cmds.calls c found),
    rw q (keys-insert (name spec) c' c cmds.calls found, refl, refl),
  )
  validated-runnable cmds cmds' spec (as_view c c' now no_call found valid q) = (
    ground (arith, now, member_of_lookup (name spec) cmds.views c found),
    rw q (refl, keys-insert (name spec) c' c cmds.views found, refl),
  )
  validated-runnable cmds cmds' spec (as_write c c' no_call no_view found valid q) = (
    ground (
      arith,
      member_of_lookup (name spec) cmds.writes c found,
      not-member_of_lookup (name spec) cmds.calls no_call,
      not-member_of_lookup (name spec) cmds.views no_view,
    ),
    rw q (refl, refl, keys-insert (name spec) c' c cmds.writes found),
  )

  -- Every command of a validated target is in some section, a deferred one among the WRITE commands
  -- only, and validation adds no name to a section and takes none away.
  pub validate_target-runnable :
      (cmds cmds' : Cmds) (specs : List Text)
      → validate_target env cmds specs ≡ ok cmds'
      → All (λ spec. is_runnable cmds spec ≡ true) specs × SameNames cmds' cmds
  unfolding validate_target
  validate_target-runnable cmds cmds' [] h =
      let q : cmds ≡ cmds' = ground arith in (tt, rw (sym q) (refl, refl, refl))
  validate_target-runnable cmds cmds' (spec ∷ specs) h =
      let (mid, first, rest) =
        >>=-eq-ok (validate_command env cmds spec) (λ c. validate_target env c specs) h in
      let (runs, (a, b, c)) =
        validated-runnable cmds mid spec (validate_command-Validated env cmds mid spec first) in
      let (others, (x, y, z)) = validate_target-runnable mid cmds' specs rest in
      ((runs, carry specs mid others (a, b, c)), (x ∙ a, y ∙ b, z ∙ c))
    where
      carry :
          (ss : List Text) (mid : Cmds)
          → All (λ s. is_runnable mid s ≡ true) ss
          → SameNames mid cmds
          → All (λ s. is_runnable cmds s ≡ true) ss
      carry [] mid r same = tt
      carry (s ∷ ss) mid (r, rs) same =
          (sym (same_runnable mid cmds s same) ∙ r, carry ss mid rs same)
