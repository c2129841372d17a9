-- ===== src/ConnectionManager/Broadcast.antt =====
-- What a broadcast leaves in each queue: the newest messages, the new one last.
use p2p_treker.Prelude.{
  ℕ, zero, suc, ◌+◌, ◌-◌, ◌<◌, ◌≡◌, refl, inl, inr, true, false, ◌&&◌, Option, none, some, List, [],
  ◌∷◌, ◌++◌, length, leb, ltb, arith, Bool-cases,
}
use p2p_treker.Prelude.Dict.{Dict, Key, lookup}
use p2p_treker.ConnectionManager.{full, push, Manager, broadcast_to, broadcast}

module _ (Payload : Type 0) where
  -- The list without its first `n` elements.
  pub without : ℕ → List Payload → List Payload
  without zero xs = xs
  without (suc n) [] = []
  without (suc n) (x ∷ xs) = without n xs

  -- The newest messages that leave room for one more, and that one.
  pub newest : ℕ → List Payload → Payload → List Payload
  unfolding without
  newest size queue payload = without (length queue + 1 - size) queue ++ (payload ∷ [])

  without-all : (n : ℕ) (xs : List Payload) → n ≡ 0 → without n xs ≡ xs
  unfolding without
  without-all zero xs h = refl
  without-all (suc n) xs h = absurd (omega arith)

  without-suc :
      (m n : ℕ) (x : Payload) (xs : List Payload) → m ≡ n + 1 → without m (x ∷ xs) ≡ without n xs
  unfolding without
  without-suc zero n x xs h = absurd (omega arith)
  without-suc (suc m) n x xs h = let e : m ≡ n = omega arith in rw e refl

  push-newest :
      (size : ℕ) (queue : List Payload) (payload : Payload)
      → 0 < size
      → push Payload size queue payload ≡ newest size queue payload
  unfolding push full newest
  push-newest size [] payload p =
      let room : (ltb 0 size && leb size 0) ≡ false = ground arith in
      rw (room, without-all (0 + 1 - size) [] (omega arith)) refl
  push-newest size (x ∷ queue) payload p = elim (Bool-cases (leb size (suc (length queue)))) [
    | inl t ↦
        let on : ltb 0 size ≡ true = ground arith in
        rw
          (
            on,
            t,
            push-newest size queue payload p,
            without-suc (suc (length queue) + 1 - size) (length queue + 1 - size) x queue
                (ground arith),
          )
          refl
    | inr f ↦
        let on : ltb 0 size ≡ true = ground arith in
        rw (on, f, without-all (suc (length queue) + 1 - size) (x ∷ queue) (ground arith)) refl
  ]

-- What a client's queue is after a broadcast.
abbrev pub delivered :
    (Payload : Type 0) → ℕ → Option (List Payload) → Payload → Option (List Payload)
delivered Payload size none payload = none
delivered Payload size (some queue) payload = some (newest Payload size queue payload)

module _ (Client Payload : Type 0) ⦃e : Key Client⦄ where
  lookup-broadcast_to :
      (size : ℕ) (clients : Dict Client (List Payload)) (payload : Payload) (client : Client)
      → 0 < size
      → lookup client (broadcast_to Client Payload size clients payload)
        ≡ delivered Payload size (lookup client clients) payload
  unfolding broadcast_to
  lookup-broadcast_to size [] payload client p = refl
  lookup-broadcast_to size ((c, queue) ∷ clients) payload client p =
      elim (Bool-cases (e.beq c client)) [
        | inl t ↦ rw (t, push-newest Payload size queue payload p) refl
        | inr f ↦ rw f (lookup-broadcast_to size clients payload client p)
      ]

  -- For a queue size from 1 on a broadcast gives every connected client the new message as its
  -- last, keeps of the earlier ones the newest for which there is room, in their order, and
  -- connects no one.
  pub lookup-broadcast :
      (m : Manager Client Payload) (payload : Payload) (client : Client)
      → 0 < m.queue_size
      → lookup client (broadcast Client Payload m payload).clients
        ≡ delivered Payload m.queue_size (lookup client m.clients) payload
  unfolding broadcast
  lookup-broadcast m payload client p = lookup-broadcast_to m.queue_size m.clients payload client p
