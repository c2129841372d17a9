-- ===== src/Testnet/Retries.antt =====
-- The retries of a request (backend/app/testnet/binance.py).
use p2p_treker.Prelude.{
  ℕ, zero, suc, ◌≡◌, refl, ap, true, Bool-cases, if-elim, inl, inr, List, [], ◌∷◌, min, arith,
  if◌then◌else◌,
}
use p2p_treker.Prelude.Result.{Result, err, testnet_retryable}
use p2p_treker.Decimal.{Decimal}
use p2p_treker.Testnet.{
  Payload, Request, Reply, transport_error, response, is_transient, decided, Answered, backoff,
  attempts,
}

-- The first reply that is not transient decides; if there is none, the attempts are used up.
abbrev pub verdict : List Reply → Result Payload
verdict [] = err testnet_retryable
verdict (r ∷ rs) = if is_transient r then verdict rs else decided r

-- The transient replies before it.
abbrev pub failures : List Reply → ℕ
failures [] = 0
failures (r ∷ rs) = if is_transient r then suc (failures rs) else 0

-- base, 2 base, 4 base, ...
abbrev pub delays : Decimal → ℕ → ℕ → List Decimal
delays base attempt zero = []
delays base attempt (suc n) = backoff base attempt ∷ delays base (suc attempt) n

transient-decided : (r : Reply) → is_transient r ≡ true → decided r ≡ err testnet_retryable
unfolding decided
transient-decided transport_error h = refl
transient-decided (response status_code body) h = rw h refl

last_verdict : (r : Reply) → decided r ≡ verdict (r ∷ [])
last_verdict r = elim (Bool-cases (is_transient r)) [
  | inl p ↦ rw p (transient-decided r p)
  | inr p ↦ rw p refl
]

min-zero : (n : ℕ) → min 0 n ≡ 0
min-zero n = omega arith

min_zero : (n : ℕ) → min n 0 ≡ 0
min_zero n = omega arith

min-suc : (m n : ℕ) → min (suc m) (suc n) ≡ suc (min m n)
min-suc m n = omega arith

module _ {Server : Type 0} (call : Request → Server → Server × Reply) where
  -- The replies to n requests in a row, and the exchange after them.
  abbrev pub replies : Request → ℕ → Server → List Reply
  replies request zero server = []
  replies request (suc n) server = let r = call request server in r.1 ∷ replies request n r.0

  abbrev pub asked : Request → ℕ → Server → Server
  asked request zero server = server
  asked request (suc n) server = asked request n (call request server).0

  -- A call is its first decisive reply.
  pub record IsVerdict (base : Decimal) (request : Request) (left attempt : ℕ) (server : Server)
      (a : Answered Server) : Type 0 where
    pub result : a.result ≡ verdict (replies request (suc left) server)
    pub sleeps :
        a.sleeps ≡ delays base attempt (min left (failures (replies request (suc left) server)))
    pub server_after :
        a.server
        ≡ asked request (suc (min left (failures (replies request (suc left) server)))) server

  -- At most one request and `left` more are sent: the result is the first reply that is neither a
  -- failure of the network nor a 5xx, a rejection if it is a 4xx, and a retryable error if there is
  -- none; before each further request the client sleeps, the base delay first and twice as long each
  -- time; and no request is sent after the reply that decides.
  pub attempts-IsVerdict :
      (base : Decimal) (request : Request) (left attempt : ℕ) (server : Server)
      → IsVerdict base request left attempt server (attempts call base request left attempt server)
  unfolding attempts decided
  attempts-IsVerdict base request zero attempt server =
      let r = call request server in
      record {
        result = last_verdict r.1;
        sleeps = rw (min-zero (failures (r.1 ∷ []))) refl;
        server_after = rw (min-zero (failures (r.1 ∷ []))) refl;
      }
  attempts-IsVerdict base request (suc left) attempt server =
      let r = call request server in
      let later = attempts-IsVerdict base request left (suc attempt) r.0 in
      let n = failures (replies request (suc left) r.0) in
      if-elim (IsVerdict base request (suc left) attempt server) (is_transient r.1) _ _
        (λ p. record {
          result = rw p later.result;
          sleeps = rw (p, min-suc left n) (ap (◌∷◌ (backoff base attempt)) later.sleeps);
          server_after = rw (p, min-suc left n) later.server_after;
        })
        (λ p. record {
          result = rw p refl;
          sleeps = rw (p, min_zero (suc left)) refl;
          server_after = rw (p, min_zero (suc left)) refl;
        })
