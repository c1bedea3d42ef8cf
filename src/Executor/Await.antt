-- ===== src/Executor/Await.antt =====
-- executor/exec_target.go, awaitTx: the wait for a transaction, against what the node answers.
pub mod Ends
use ethereum_playbook.Common.{
  ℕ, true, ◌||◌, Option, none, some, List, [], ◌∷◌, Result, ok, err, if◌then◌else◌, ◌==◌, ◌≡◌, ◌≢◌,
  ◌⊎◌, inl, inr, refl, arith, Bool-cases,
}
use ethereum_playbook.Common.Text.{Text, codes, has_prefix}
use ethereum_playbook.Errors.{Error, bad_result, not_a_hash, rpc_failed, failed_status, timed_out}
use ethereum_playbook.Values.{Value, text}

-- The answers of TransactionByHash and TransactionReceipt.
pub data Lookup : Type 0 where
  lookup_failed pending mined : Lookup

pub data Receipt : Type 0 where
  no_receipt : Receipt
  status : ℕ → Receipt

-- What the select meets: the timer, with what a lookup and a receipt answer then, or the end of the
-- context.
pub data Event : Type 0 where
  tick : Lookup → Receipt → Event
  done : Event

abbrev settle : Receipt → Result Error (Unit {0})
settle no_receipt = err rpc_failed
settle (status s) = if s == 0 then err failed_status else ok tt

-- The loop of awaitTx: `none` while the events do not end it.
unfoldable pub poll : List Event → Option (Result Error (Unit {0}))
poll [] = none
poll (done ∷ events) = some (err timed_out)
poll (tick mined r ∷ events) = some (settle r)
poll (tick pending r ∷ events) = poll events
poll (tick lookup_failed r ∷ events) = poll events

abbrev first_lookup : Lookup → List Event → Option (Result Error (Unit {0}))
first_lookup lookup_failed events = some (err rpc_failed)
first_lookup mined events = some (ok tt)
first_lookup pending events = poll events

-- awaitTx
unfoldable pub await_tx : Value → Lookup → List Event → Option (Result Error (Unit {0}))
await_tx (text s) first events =
    if has_prefix s (codes "tx:") || has_prefix s (codes "0x")
    then first_lookup first events
    else some (err not_a_hash)
await_tx _ first events = some (err bad_result)

-- The transaction is mined with a status that is not 0, after events that show it pending or tell
-- nothing.
pub data Succeeds : List Event → Type 0 where
  now : (s : ℕ) (events : List Event) → s ≢ 0 → Succeeds (tick mined (status s) ∷ events)
  later_pending :
      (r : Receipt) (events : List Event) → Succeeds events → Succeeds (tick pending r ∷ events)
  later_failed :
      (r : Receipt) (events : List Event)
      → Succeeds events
      → Succeeds (tick lookup_failed r ∷ events)

poll-Succeeds : (events : List Event) → poll events ≡ some (ok tt) → Succeeds events
unfolding poll
poll-Succeeds [] h = cc
poll-Succeeds (done ∷ events) h = cc
poll-Succeeds (tick pending r ∷ events) h = later_pending r events (poll-Succeeds events h)
poll-Succeeds (tick lookup_failed r ∷ events) h = later_failed r events (poll-Succeeds events h)
poll-Succeeds (tick mined no_receipt ∷ events) h = cc
poll-Succeeds (tick mined (status s) ∷ events) h = elim (Bool-cases (s == 0)) [
  | inl z ↦ absurd (ground (arith, z))
  | inr n ↦ now s events (λ z. absurd (ground (arith, n, z)))
]

Succeeds-poll : (events : List Event) → Succeeds events → poll events ≡ some (ok tt)
unfolding poll
Succeeds-poll _ (now s events n) = ground (arith, n)
Succeeds-poll _ (later_pending r events later) = Succeeds-poll events later
Succeeds-poll _ (later_failed r events later) = Succeeds-poll events later

-- For a hash, the wait ends well exactly when the transaction was mined before the wait began, with
-- whatever status, or is mined later with a status that is not 0.
pub await_tx_iff :
    (s : Text) (first : Lookup) (events : List Event)
    → (has_prefix s (codes "tx:") || has_prefix s (codes "0x")) ≡ true
    → ((await_tx (text s) first events ≡ some (ok tt))
        → (first ≡ mined) ⊎ ((first ≡ pending) × Succeeds events))
      × ((first ≡ mined) ⊎ ((first ≡ pending) × Succeeds events)
          → await_tx (text s) first events ≡ some (ok tt))
unfolding await_tx
await_tx_iff s first events hash = (forth first hash, back first hash)
  where
    forth :
        (l : Lookup)
        → (has_prefix s (codes "tx:") || has_prefix s (codes "0x")) ≡ true
        → await_tx (text s) l events ≡ some (ok tt)
        → (l ≡ mined) ⊎ ((l ≡ pending) × Succeeds events)
    forth mined hash h = inl refl
    forth pending hash h =
        let p : poll events ≡ some (ok tt) = ground (arith, hash) in
        inr (refl, poll-Succeeds events p)
    forth lookup_failed hash h = absurd (ground (arith, hash))

    back :
        (l : Lookup)
        → (has_prefix s (codes "tx:") || has_prefix s (codes "0x")) ≡ true
        → (l ≡ mined) ⊎ ((l ≡ pending) × Succeeds events)
        → await_tx (text s) l events ≡ some (ok tt)
    back mined hash h = rw hash refl
    back pending hash (inl e) = cc
    back pending hash (inr (e, later)) = rw hash (Succeeds-poll events later)
    back lookup_failed hash (inl e) = cc
    back lookup_failed hash (inr (e, later)) = cc
