-- ===== src/Executor/Await/Ends.antt =====
-- The wait for a transaction ends.
use ethereum_playbook.Common.{
  Bool, true, false, ◌||◌, Option, some, List, [], ◌∷◌, ◌++◌, Result, err, ◌≡◌, refl, if◌then◌else◌,
}
use ethereum_playbook.Common.Text.{codes, has_prefix}
use ethereum_playbook.Errors.{Error, not_a_hash}
use ethereum_playbook.Values.{
  Value, nil, text, boolean, big, float, int, uint, bytes, static_bytes, address, wallet_reference,
  arg_reference,
}
use ethereum_playbook.Executor.Await.{
  Lookup, lookup_failed, pending, mined, Event, tick, done, settle, poll, first_lookup, await_tx,
}

abbrev Ended : Option (Result Error (Unit {0})) → Option (Result Error (Unit {0})) → Type 0
Ended o p = (r : Result Error (Unit {0})) × (o ≡ some r) × (p ≡ some r)

poll-done :
    (before after : List Event) → Ended (poll (before ++ done ∷ after)) (poll (before ++ done ∷ []))
unfolding poll
poll-done [] after = (_, refl, refl)
poll-done (done ∷ before) after = (_, refl, refl)
poll-done (tick mined r ∷ before) after = (settle r, refl, refl)
poll-done (tick pending r ∷ before) after = poll-done before after
poll-done (tick lookup_failed r ∷ before) after = poll-done before after

-- Once the context is done, awaitTx has returned, whatever it waited for, and nothing that comes later
-- changes what it returned.
pub await_tx-done :
    (v : Value) (first : Lookup) (before after : List Event)
    → (r : Result Error (Unit {0})) × (await_tx v first (before ++ done ∷ after) ≡ some r)
      × (await_tx v first (before ++ done ∷ []) ≡ some r)
unfolding await_tx
await_tx-done (text s) first before after =
    by_test (has_prefix s (codes "tx:") || has_prefix s (codes "0x")) first
  where
    by_first :
        (l : Lookup)
        → Ended (first_lookup l (before ++ done ∷ after)) (first_lookup l (before ++ done ∷ []))
    by_first lookup_failed = (_, refl, refl)
    by_first mined = (_, refl, refl)
    by_first pending = poll-done before after

    by_test :
        (b : Bool) (l : Lookup)
        → Ended
            (if b then first_lookup l (before ++ done ∷ after) else some (err not_a_hash))
            (if b then first_lookup l (before ++ done ∷ []) else some (err not_a_hash))
    by_test true l = by_first l
    by_test false l = (_, refl, refl)
await_tx-done nil first before after = (_, refl, refl)
await_tx-done (boolean b) first before after = (_, refl, refl)
await_tx-done (big z) first before after = (_, refl, refl)
await_tx-done (float s) first before after = (_, refl, refl)
await_tx-done (int n z) first before after = (_, refl, refl)
await_tx-done (uint n m) first before after = (_, refl, refl)
await_tx-done (bytes b) first before after = (_, refl, refl)
await_tx-done (static_bytes n b) first before after = (_, refl, refl)
await_tx-done (address a) first before after = (_, refl, refl)
await_tx-done (wallet_reference r) first before after = (_, refl, refl)
await_tx-done (arg_reference id) first before after = (_, refl, refl)
