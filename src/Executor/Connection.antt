-- ===== src/Executor/Connection.antt =====
-- `executor_main` of executor/src/lib.rs: the retry loop and the changes of the configuration.
use funtonic.Base.{
  ℕ, zero, suc, ◌+◌, ◌*◌, ◌≤◌, String, ◌≡◌, ◌∙◌, ap, Option, none, some, List, [], ◌∷◌, ltb,
  if◌then◌else◌, arith,
}
use funtonic.Base.HashMap
use funtonic.Base.HashMap.{HashMap}
use funtonic.Crypto.Library.{Bytes, Base64}

pub data LastConnectionStatus : Type 0 where
  connecting connected : LastConnectionStatus

pub data ConfigurationModification : Type 0 where
  add_key : String → Bytes → ConfigurationModification
  revoke_key : String → ConfigurationModification
  unchanged : ConfigurationModification

-- Milliseconds.
abbrev pub max_reconnect_time : ℕ
max_reconnect_time = 10_000

abbrev pub first_reconnect_time : ℕ
first_reconnect_time = 100

-- The time to wait after a failure, from the status at the failure and the time waited before.
unfoldable pub next_reconnect_time : LastConnectionStatus → ℕ → ℕ
next_reconnect_time connecting reconnect_time =
    if ltb max_reconnect_time (reconnect_time + 1000)
    then max_reconnect_time
    else reconnect_time + 1000
next_reconnect_time connected reconnect_time = 1000

-- What the configuration's `authorized_keys` become.
unfoldable pub modify : Base64 → ConfigurationModification → HashMap String → HashMap String
unfolding HashMap.insert HashMap.remove
modify base64 (add_key key_id key_bytes) keys = HashMap.insert key_id (base64.encode key_bytes) keys
modify base64 (revoke_key key_id) keys = HashMap.remove key_id keys
modify base64 unchanged keys = keys

-- The outcomes of `do_executor_main`: an error, at some status of the connection, or a modification.
pub data Outcome : Type 0 where
  failed : LastConnectionStatus → Outcome
  ended : ConfigurationModification → Outcome

-- The retry loop over the outcomes of its rounds: the times that it sleeps, and the keys that it
-- returns. `none` while no round has ended without an error.
unfoldable pub retry : Base64 → HashMap String → ℕ → List Outcome → List ℕ × Option (HashMap String)
unfolding next_reconnect_time modify
retry base64 keys reconnect_time [] = ([], none)
retry base64 keys reconnect_time (failed status ∷ outcomes) =
    let time = next_reconnect_time status reconnect_time in
    let (times, result) = retry base64 keys time outcomes in (time ∷ times, result)
retry base64 keys reconnect_time (ended modification ∷ outcomes) =
    ([], some (modify base64 modification keys))

-- Every time in the list is at least a second and at most ten.
abbrev pub Bounded : List ℕ → Type 0
Bounded [] = Unit
Bounded (t ∷ ts) = (1000 ≤ t) × (t ≤ max_reconnect_time) × Bounded ts

bounded :
    (base64 : Base64) (keys : HashMap String) (outcomes : List Outcome) (time : ℕ)
    → Bounded (retry base64 keys time outcomes).0
unfolding retry
bounded base64 keys [] time = tt
bounded base64 keys (failed connecting ∷ outcomes) time =
    (ground arith, ground arith, bounded base64 keys outcomes (next_reconnect_time connecting time))
bounded base64 keys (failed connected ∷ outcomes) time =
    (ground arith, ground arith, bounded base64 keys outcomes 1000)
bounded base64 keys (ended m ∷ outcomes) time = tt

-- Some refused connections, before what follows.
abbrev pub refusals : ℕ → List Outcome → List Outcome
refusals zero outcomes = outcomes
refusals (suc n) outcomes = failed connecting ∷ refusals n outcomes

-- The wait after the i-th refusal, and those after the i-th and the n - 1 that follow it.
abbrev pub wait : ℕ → ℕ
wait i = if ltb (100 + 1000 * i) max_reconnect_time then 100 + 1000 * i else max_reconnect_time

abbrev pub waits : ℕ → ℕ → List ℕ → List ℕ
waits i zero rest = rest
waits i (suc n) rest = wait i ∷ waits (suc i) n rest

wait_next : (i : ℕ) → next_reconnect_time connecting (wait i) ≡ wait (suc i)
unfolding next_reconnect_time
wait_next i = ground arith

refused :
    (base64 : Base64) (keys : HashMap String) (outcomes : List Outcome) (k n i : ℕ)
    → k ≡ i + n
    → let (times, result) = retry base64 keys (wait k) outcomes in
      retry base64 keys (wait i) (refusals n outcomes) ≡ (waits (suc i) n times, result)
unfolding retry
refused base64 keys outcomes k zero i e =
    ap (λ j. retry base64 keys (wait j) outcomes) (omega (arith, e))
refused base64 keys outcomes k (suc n) i e =
    ap (λ t. let (times, result) = retry base64 keys t (refusals n outcomes) in (t ∷ times, result))
      (wait_next i)
    ∙ ap (λ (times, result). (wait (suc i) ∷ times, result))
        (refused base64 keys outcomes k n (suc i) (omega (arith, e)))

-- The loop waits between attempts for at least a second and at most ten. After n refused connections
-- in a row, from the start, it has waited 100 ms more than a second per refusal so far, up to ten
-- seconds, and goes on from there.
pub retry_ok :
    (base64 : Base64) (keys : HashMap String) (outcomes : List Outcome)
    → Bounded (retry base64 keys first_reconnect_time outcomes).0
      × ((n : ℕ)
          → let (times, result) = retry base64 keys (wait n) outcomes in
            retry base64 keys first_reconnect_time (refusals n outcomes)
            ≡ (waits 1 n times, result))
retry_ok base64 keys outcomes = (
  bounded base64 keys outcomes first_reconnect_time,
  λ n. refused base64 keys outcomes n n 0 (omega arith),
)
