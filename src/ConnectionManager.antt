-- ===== src/ConnectionManager.antt =====
-- The connection manager (backend/app/api/websocket/manager.py): one bounded queue per client.
pub mod Broadcast
use p2p_treker.Prelude.{
  ℕ, ◌≡◌, Bool, true, false, ◌&&◌, Option, none, some, List, [], ◌∷◌, ◌++◌, map, length, leb, ltb,
  if◌then◌else◌,
}
use p2p_treker.Prelude.Dict.{Dict, Key, insert, erase, lookup}

module _ (Payload : Type 0) where
  -- `asyncio.Queue.full`: a size of 0 is no bound.
  pub full : ℕ → List Payload → Bool
  full size queue = ltb 0 size && leb size (length queue)

  -- The `while True` of `broadcast`: the oldest message goes until there is room; the loop ends at
  -- an empty queue at the latest.
  unfoldable pub push : ℕ → List Payload → Payload → List Payload
  unfolding full
  push size [] payload = if full size [] then [] else payload ∷ []
  push size (x ∷ queue) payload =
      let retried = push size queue payload in
      if full size (x ∷ queue) then retried else (x ∷ queue) ++ (payload ∷ [])

-- Clients are sockets, which compare by identity; payloads are JSON texts, of any type here.
module _ (Client Payload : Type 0) ⦃e : Key Client⦄ where
  pub record Manager : Type 0 where
    pub queue_size : ℕ
    pub clients : Dict Client (List Payload)

  pub new_manager : ℕ → Manager
  new_manager client_queue_size = record { queue_size = client_queue_size; clients = [] }

  unfoldable pub connect : Manager → Client → Manager
  connect m client = record m { clients = insert client [] m.clients }

  unfoldable pub disconnect : Manager → Client → Manager
  disconnect m client = record m { clients = erase client m.clients }

  pub client_count : Manager → ℕ
  client_count m = length m.clients

  pub broadcast_to : ℕ → Dict Client (List Payload) → Payload → Dict Client (List Payload)
  unfolding push
  broadcast_to size [] payload = []
  broadcast_to size ((client, queue) ∷ rest) payload =
      (client, push Payload size queue payload) ∷ broadcast_to size rest payload

  unfoldable pub broadcast : Manager → Payload → Manager
  unfolding broadcast_to
  broadcast m payload = record m { clients = broadcast_to m.queue_size m.clients payload }
