-- ===== src/OrderServer/Responses.antt =====
-- order_server.h, `run`: the responses of the engine go out, each on its client's connection and
-- with that client's next number.
use trade_system.Common.{
  ℕ, zero, suc, ◌<◌, ◌≡◌, ◌∙◌, refl, ap, sym, subst, not, ltb, if◌then◌else◌, Bool, true, false,
  List, [], ◌∷◌, ◌++◌, length, Option, none, some, Outcome, done, fault, out_of_fuel, ◌>>=◌, ◌>>◌,
  assert, deref, update, Returns, Returns-bind, Returns-map, arith, Bool-cases, inl, inr,
  append-nil, append_assoc, All, ◌&&◌, ◌==◌,
}
use trade_system.Types.{max_num_clients}
use trade_system.Messages.{ClientResponse, SequencedResponse}
use trade_system.LfQueue
use trade_system.LfQueue.{LfQueue}
use trade_system.LfQueue.Refine.{IsValid, contents}
use trade_system.LfQueue.Take.{Taken, take_lem}
use trade_system.Tcp
use trade_system.Tcp.{TcpSocket, SendResult, healthy}
use trade_system.Tcp.Sending.{IsWithin, pending, has_room, Offered, offer}
use trade_system.Wire.Orders.{encode_response}
use trade_system.OrderServer.{OrderServer, increment, set_socket}
use trade_system.OrderServer.Rejecting.{response_frame}

-- The frame of a response.
abbrev pub message : OrderServer → ClientResponse → SequencedResponse
message s r = record {
  seq_num = s.cid_next_outgoing_seq_num r.client_id;
  response = r;
  session_epoch = s.cid_session_epoch r.client_id;
}

-- What follows `send`: a full buffer keeps the response in the queue.
abbrev pub responded : OrderServer → ℕ → ℕ → SendResult × TcpSocket → Outcome (Bool × OrderServer)
responded s c k (SendResult.accepted, t) = do
  q ← LfQueue.pop s.outgoing_responses
  done (
    true,
    record (set_socket s k t) {
      outgoing_responses = q;
      cid_next_outgoing_seq_num =
          update s.cid_next_outgoing_seq_num c (increment (s.cid_next_outgoing_seq_num c));
    },
  )
responded s c k (SendResult.full, t) = done (false, s)
responded s c k (SendResult.invalid, t) = fault

-- One round of the loop, on the head of the queue.
unfoldable pub respond : OrderServer → Option ClientResponse → Outcome (Bool × OrderServer)
respond s none = done (false, s)
respond s (some r) = do
  assert (ltb r.client_id max_num_clients)
  k ← deref (s.cid_tcp_socket r.client_id)
  responded s r.client_id k (Tcp.send (s.sockets k) (encode_response (message s r)))

-- The loop, which ends with an empty queue or a full buffer.
unfoldable pub respond_all : ℕ → OrderServer → Outcome OrderServer
unfolding respond
respond_all zero s = out_of_fuel
respond_all (suc fuel) s = do
  (ok, s) ← respond s (LfQueue.peek s.outgoing_responses)
  if ok then respond_all fuel s else done s

-- The acknowledgement that nothing is left in the sequencer.
abbrev pub acknowledge : OrderServer → OrderServer
acknowledge s =
    if not s.accepting && length s.fifo_sequencer.pending == 0
    then record s { quiesced = true }
    else s

-- Clients' connections are open, with their bytes within the buffer.
abbrev pub IsOpen : OrderServer → Type 0
IsOpen s =
    (c k : ℕ)
    → s.cid_tcp_socket c ≡ some k
    → (healthy (s.sockets k) ≡ true) × IsWithin (s.sockets k)

-- A response whose client has a connection.
abbrev pub IsKnown : (ℕ → Option ℕ) → ClientResponse → Type 0
IsKnown tcp r = (ltb r.client_id 256 ≡ true) × ((k : ℕ) × (tcp r.client_id ≡ some k))

abbrev pub is_to : ℕ → Option ℕ → Bool
is_to k none = false
is_to k (some j) = j == k

-- The bytes that some responses put on the connection `k`, each client's numbers counting up.
abbrev pub bytes_to : (ℕ → Option ℕ) → (ℕ → ℕ) → ℕ → List ClientResponse → (ℕ → ℕ) → List ℕ
bytes_to tcp epochs k [] numbers = []
bytes_to tcp epochs k (r ∷ rs) numbers =
    (if is_to k (tcp r.client_id)
      then encode_response (record {
        seq_num = numbers r.client_id;
        response = r;
        session_epoch = epochs r.client_id;
      })
      else [])
    ++ bytes_to tcp epochs k rs (update numbers r.client_id (increment (numbers r.client_id)))

-- The state after one response went out on the connection `k`.
record Delivered (k : ℕ) (r : ClientResponse) (rs : List ClientResponse) (s u : OrderServer)
    : Type 0 where
  tcp : u.cid_tcp_socket ≡ s.cid_tcp_socket
  epochs : u.cid_session_epoch ≡ s.cid_session_epoch
  valid : IsValid u.outgoing_responses
  queue : contents u.outgoing_responses ≡ rs
  numbers :
      u.cid_next_outgoing_seq_num
      ≡ update s.cid_next_outgoing_seq_num r.client_id
          (increment (s.cid_next_outgoing_seq_num r.client_id))
  is_open : IsOpen u
  sent :
      (j : ℕ)
      → pending (u.sockets j)
        ≡ pending (s.sockets j) ++ (if k == j then encode_response (message s r) else [])

-- One round: the response goes out, or its connection has no room for it.
abbrev Round : ℕ → ClientResponse → List ClientResponse → OrderServer → Bool × OrderServer → Type 0
Round k r rs s (true, u) = Delivered k r rs s u
Round k r rs s (false, u) =
    (u ≡ s) × (has_room (s.sockets k) (encode_response (message s r)) ≡ false)

responded-Round :
    (s : OrderServer) (k : ℕ) (r : ClientResponse) (rs : List ClientResponse)
    (x : SendResult × TcpSocket)
    → s.cid_tcp_socket r.client_id ≡ some k
    → IsOpen s
    → ((q : LfQueue ClientResponse) × (LfQueue.pop s.outgoing_responses ≡ done q)
        × IsValid q
        × (contents q ≡ rs))
    → Offered (s.sockets k) (encode_response (message s r)) x
    → Returns (Round k r rs s) (responded s r.client_id k x)
responded-Round s k r rs (SendResult.accepted, t) e o (q, p, v, c) f =
    let yes : has_room (s.sockets k) (encode_response (message s r)) ≡ true = sym f.taken in
    let whole =
      f.appended
      ∙ ap (λ b. pending (s.sockets k) ++ (if b then encode_response (message s r) else [])) yes in
    rw (p) (record {
      tcp = refl;
      epochs = refl;
      valid = v;
      queue = c;
      numbers = refl;
      is_open = λ d j g. still d j g;
      sent = λ j. placed j whole;
    })
  where
    still :
        (d j : ℕ)
        → s.cid_tcp_socket d ≡ some j
        → (healthy (update s.sockets k t j) ≡ true) × IsWithin (update s.sockets k t j)
    still d j g = elim (Bool-cases (k == j)) [
      | inl z ↦ rw (z) (f.sendable.0, f.within)
      | inr z ↦ rw (z) (o d j g)
    ]

    placed :
        (j : ℕ)
        → pending t ≡ pending (s.sockets k) ++ encode_response (message s r)
        → pending (update s.sockets k t j)
          ≡ pending (s.sockets j) ++ (if k == j then encode_response (message s r) else [])
    placed j whole = elim (Bool-cases (k == j)) [
      | inl z ↦
          let same : k ≡ j = ground (arith, z) in
          rw (z) (whole ∙ ap (λ i. pending (s.sockets i) ++ encode_response (message s r)) same)
      | inr z ↦ rw (z) (sym (append-nil (pending (s.sockets j))))
    ]
responded-Round s k r rs (SendResult.full, t) e o q f = (refl, sym f.taken)
responded-Round s k r rs (SendResult.invalid, t) e o q f = f.sendable

-- The loop stopped at a response whose connection has no room for it.
abbrev pub Stuck : OrderServer → List ClientResponse → Type 0
Stuck s [] = Unit {0}
Stuck s (r ∷ rs) =
    (k : ℕ) × (s.cid_tcp_socket r.client_id ≡ some k)
    × (has_room (s.sockets k) (encode_response (message s r)) ≡ false)

-- What the loop comes to.
pub record Answered (s : OrderServer) (rs : List ClientResponse) (u : OrderServer) : Type 0 where
  pub sent : List ClientResponse
  pub left : List ClientResponse
  pub split : rs ≡ sent ++ left
  pub queue : contents u.outgoing_responses ≡ left
  pub stopped : Stuck u left
  pub bytes :
      (k : ℕ)
      → pending (u.sockets k)
        ≡ pending (s.sockets k)
          ++ bytes_to s.cid_tcp_socket s.cid_session_epoch k sent s.cid_next_outgoing_seq_num

respond-Round :
    (s : OrderServer) (k : ℕ) (r : ClientResponse) (rs : List ClientResponse)
    → ltb r.client_id 256 ≡ true
    → s.cid_tcp_socket r.client_id ≡ some k
    → IsOpen s
    → ((q : LfQueue ClientResponse) × (LfQueue.pop s.outgoing_responses ≡ done q)
        × IsValid q
        × (contents q ≡ rs))
    → Returns (Round k r rs s) (respond s (some r))
unfolding respond
respond-Round s k r rs small e o q =
    let frame = encode_response (message s r) in
    rw (small, e)
      (responded-Round s k r rs (Tcp.send (s.sockets k) frame) e o q (
        offer (s.sockets k) frame (o r.client_id k e).0 (o r.client_id k e).1
          (response_frame (message s r))))

-- The loop over the responses of a valid queue, with fuel for all of them, when every response is for
-- a known client (an id below 256 with a connection), and every connection of a client is open and
-- within its buffer: it returns; the responses that have left the queue are the first ones, and
-- each connection has got exactly their frames for its clients, in this order and with each
-- client's numbers counting up; the loop ended with an empty queue, or at a response for which its
-- connection has no room.
pub respond_all-Answered :
    (fuel : ℕ) (s : OrderServer) (rs : List ClientResponse)
    → IsValid s.outgoing_responses
    → contents s.outgoing_responses ≡ rs
    → All (IsKnown s.cid_tcp_socket) rs
    → IsOpen s
    → length rs < fuel
    → Returns (Answered s rs) (respond_all fuel s)
unfolding respond_all respond
respond_all-Answered zero s rs v e k o f = absurd (omega (arith, f))
respond_all-Answered (suc fuel) s [] v e k o f =
    let t = subst (Taken s.outgoing_responses) e (take_lem s.outgoing_responses v) in
    rw (t.0) (record {
      sent = [];
      left = [];
      split = refl;
      queue = e;
      stopped = tt;
      bytes = λ k. sym (append-nil (pending (s.sockets k)));
    })
respond_all-Answered (suc fuel) s (r ∷ rs) v e ((small, (k, bound)), known) o f =
    let (first, (q, popped, _, valid, rest)) =
      subst (Taken s.outgoing_responses) e (take_lem s.outgoing_responses v) in
    rw (first) (
      Returns-bind (Round k r rs s) (Answered s (r ∷ rs)) (respond s (some r)) _
        (respond-Round s k r rs small bound o (q, popped, valid, rest))
        (λ x h. after x h (λ u d.
          respond_all-Answered fuel u rs d.valid d.queue
            (subst (λ tcp. All (IsKnown tcp) rs) (sym d.tcp) known) d.is_open (omega (arith, f)))))
  where
    frame_of : Bool → List ℕ
    frame_of b = if b then encode_response (message s r) else []

    numbers : ℕ → ℕ
    numbers =
        update s.cid_next_outgoing_seq_num r.client_id
          (increment (s.cid_next_outgoing_seq_num r.client_id))

    grouped :
        (u : OrderServer) (d : Delivered k r rs s u) (j : ℕ) (l : List ClientResponse)
        → pending (u.sockets j)
            ++ bytes_to u.cid_tcp_socket u.cid_session_epoch j l u.cid_next_outgoing_seq_num
          ≡ pending (s.sockets j)
            ++ bytes_to s.cid_tcp_socket s.cid_session_epoch j (r ∷ l) s.cid_next_outgoing_seq_num
    grouped u d j l =
        let rest = bytes_to u.cid_tcp_socket u.cid_session_epoch j l u.cid_next_outgoing_seq_num in
        let same : rest ≡ bytes_to s.cid_tcp_socket s.cid_session_epoch j l numbers =
          ap (λ t. bytes_to t u.cid_session_epoch j l u.cid_next_outgoing_seq_num) d.tcp
          ∙ ap (λ t. bytes_to s.cid_tcp_socket t j l u.cid_next_outgoing_seq_num) d.epochs
          ∙ ap (bytes_to s.cid_tcp_socket s.cid_session_epoch j l) d.numbers in
        ap (λ p. p ++ rest) (d.sent j)
        ∙ append_assoc (pending (s.sockets j)) (frame_of (k == j)) rest
        ∙ ap (λ b. pending (s.sockets j) ++ (frame_of b ++ rest)) (ap (is_to j) (sym bound))
        ∙ ap
            (λ b. pending (s.sockets j) ++ (frame_of (is_to j (s.cid_tcp_socket r.client_id)) ++ b))
            same

    after :
        (x : Bool × OrderServer)
        → Round k r rs s x
        → ((u : OrderServer) → Delivered k r rs s u → Returns (Answered u rs) (respond_all fuel u))
        → Returns (Answered s (r ∷ rs)) (if x.0 then respond_all fuel x.1 else done x.1)
    after (true, u) d next =
        Returns-map (Answered u rs) (Answered s (r ∷ rs)) (respond_all fuel u)
          (λ w a. record {
            sent = r ∷ a.sent;
            left = a.left;
            split = ap (λ l. r ∷ l) a.split;
            queue = a.queue;
            stopped = a.stopped;
            bytes = λ j. a.bytes j ∙ grouped u d j a.sent;
          })
          (next u d)
    after (false, u) (same, full) next = record {
      sent = [];
      left = r ∷ rs;
      split = refl;
      queue = ap (λ (w : OrderServer). contents w.outgoing_responses) same ∙ e;
      stopped = subst (λ w. Stuck w (r ∷ rs)) (sym same) (k, bound, full);
      bytes = λ j.
          ap (λ (w : OrderServer). pending (w.sockets j)) same
          ∙ sym (append-nil (pending (s.sockets j)));
    }
