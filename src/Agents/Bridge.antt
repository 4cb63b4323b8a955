-- ===== src/Agents/Bridge.antt =====
-- `SpadeAgentBridge` of src/distributed_smb/application/agent_integration.py: two bounded queues, the
-- oldest item first. A call that finds no room raises `Full`, one that finds no item `Empty`. One
-- thread runs at a time here. The type of a request is checked where it is built.
use mas_dsmb.Domain.Scalar.{Scalar}
use mas_dsmb.Prelude.{
  ◌+◌, ◌&&◌, ◌∷◌, ◌++◌, if◌then◌else◌, ℕ, zero, suc, Bool, Option, none, some, List, [], ltb, leb,
  length,
}
use mas_dsmb.Agents.{ActionRequest, GoombaPerceptionMessage}

abbrev pub agent_queue_capacity : ℕ
agent_queue_capacity = 64

-- `queue.Queue`: without a bound if `maxsize` is 0.
unfoldable pub is_full : ℕ → ℕ → Bool
is_full maxsize size = ltb 0 maxsize && leb maxsize size

-- `_put_latest`, with one unit of fuel for each turn of its loop: the queue and how many were dropped.
unfoldable pub put_latest : {A : Type 0} → (maxsize fuel : ℕ) → A → List A → ℕ → Option (List A × ℕ)
unfolding is_full
put_latest maxsize zero value items dropped = none
put_latest maxsize (suc fuel) value [] dropped =
    let again = put_latest maxsize fuel value [] dropped in
    if is_full maxsize 0 then again else some (value ∷ [], dropped)
put_latest maxsize (suc fuel) value (oldest ∷ rest) dropped =
    let again = put_latest maxsize fuel value rest (dropped + 1) in
    if is_full maxsize (suc (length rest))
    then again
    else some ((oldest ∷ rest) ++ value ∷ [], dropped)

-- The result of the loop. Enough fuel is always given: `keep` never sees `none`.
unfoldable pub keep : {A : Type 0} → List A → ℕ → Option (List A × ℕ) → List A × ℕ
keep items dropped none = (items, dropped)
keep items dropped (some (queue, more)) = (queue, dropped + more)

-- `dropped += self._put_latest(queue, value)`
unfoldable pub put : {A : Type 0} → A → List A → ℕ → List A × ℕ
unfolding put_latest keep
put value items dropped =
    keep items dropped (put_latest agent_queue_capacity (length items + 1) value items 0)

module _ (scalar : Scalar) where
  pub record SpadeAgentBridge : Type 0 where
    pub perceptions : List (GoombaPerceptionMessage scalar)
    pub action_requests : List ActionRequest
    pub dropped_perceptions : ℕ
    pub dropped_actions : ℕ

  unfoldable pub publish : GoombaPerceptionMessage scalar → SpadeAgentBridge → SpadeAgentBridge
  unfolding put
  publish message b =
      let after = put message b.perceptions b.dropped_perceptions in
      record b { perceptions = after.0; dropped_perceptions = after.1 }

  unfoldable pub submit_action : ActionRequest → SpadeAgentBridge → SpadeAgentBridge
  unfolding put
  submit_action request b =
      let after = put request b.action_requests b.dropped_actions in
      record b { action_requests = after.0; dropped_actions = after.1 }

  -- Items are taken until the queue is empty.
  unfoldable pub discard_perceptions : SpadeAgentBridge → SpadeAgentBridge
  discard_perceptions b = record b { perceptions = [] }

  unfoldable pub take_perception :
      List (GoombaPerceptionMessage scalar)
      → SpadeAgentBridge
      → Option (GoombaPerceptionMessage scalar) × SpadeAgentBridge
  take_perception [] b = (none, b)
  take_perception (oldest ∷ rest) b = (some oldest, record b { perceptions = rest })

  unfoldable pub poll_perception :
      SpadeAgentBridge → Option (GoombaPerceptionMessage scalar) × SpadeAgentBridge
  unfolding take_perception
  poll_perception b = take_perception b.perceptions b
