-- ===== src/OrderGateway/Requests.antt =====
-- The outgoing requests: in the order of the queue, with numbers that count up.
use trade_system.Common.{
  ℕ, zero, suc, ◌<◌, ◌≡◌, ◌∙◌, refl, ap, sym, subst, not, if◌then◌else◌, Bool, true, false, List,
  [], ◌∷◌, ◌++◌, length, done, Returns, Returns-bind, Returns-map, arith, ◌==◌, ◌&&◌, ◌||◌,
  Bool-cases, inl, inr, append-nil, append_assoc,
}
use trade_system.Messages.{ClientRequest, SequencedRequest}
use trade_system.LfQueue
use trade_system.LfQueue.{LfQueue}
use trade_system.LfQueue.Refine.{IsValid, contents}
use trade_system.LfQueue.Take.{Taken, take_lem}
use trade_system.Tcp
use trade_system.Tcp.{TcpSocket, SendResult, healthy}
use trade_system.Tcp.Sending.{IsWithin, pending, has_room, Offered, offer}
use trade_system.Wire.Bytes.{length-▸}
use trade_system.Wire.Orders.{encode_request}
use trade_system.OrderGateway.{
  OrderGateway, increment, message, requested, request, request_all, run_round,
}

-- The frames of some requests, counted up from `n`.
abbrev pub stream : ℕ → ℕ → List ClientRequest → List ℕ
stream epoch n [] = []
stream epoch n (r ∷ rs) =
    encode_request (record { seq_num = n; request = r; session_epoch = epoch })
    ++ stream epoch (increment n) rs

-- What the loop comes to: the first requests are on their way, and the others wait for room.
pub record Requested (g : OrderGateway) (rs : List ClientRequest) (h : OrderGateway) : Type 0 where
  pub sent : List ClientRequest
  pub left : List ClientRequest
  pub split : rs ≡ sent ++ left
  pub queue : contents h.outgoing_requests ≡ left
  pub bytes :
      pending h.tcp_socket
      ≡ pending g.tcp_socket ++ stream g.session_epoch g.next_outgoing_seq_num sent
  pub stopped :
      (r : ClientRequest) (ls : List ClientRequest)
      → left ≡ r ∷ ls
      → has_room h.tcp_socket (encode_request (message h r)) ≡ false

request_frame : (m : SequencedRequest) → (length (encode_request m) == 0) ≡ false
unfolding encode_request
request_frame m = let long : length (encode_request m) ≡ 50 = simp length-▸ in ground (arith, long)

-- The gateway after one request, or as it was if there is no room.
record Sent (g : OrderGateway) (r : ClientRequest) (rs : List ClientRequest) (h : OrderGateway)
    : Type 0 where
  queue : contents h.outgoing_requests ≡ rs
  valid : IsValid h.outgoing_requests
  is_healthy : healthy h.tcp_socket ≡ true
  within : IsWithin h.tcp_socket
  epoch : h.session_epoch ≡ g.session_epoch
  next : h.next_outgoing_seq_num ≡ increment g.next_outgoing_seq_num
  bytes : pending h.tcp_socket ≡ pending g.tcp_socket ++ encode_request (message g r)

abbrev Round : OrderGateway → ClientRequest → List ClientRequest → Bool × OrderGateway → Type 0
Round g r rs (true, h) = Sent g r rs h
Round g r rs (false, h) = (h ≡ g) × (has_room g.tcp_socket (encode_request (message g r)) ≡ false)

requested-Round :
    (g : OrderGateway) (r : ClientRequest) (rs : List ClientRequest) (x : SendResult × TcpSocket)
    → ((q : LfQueue ClientRequest) × (LfQueue.pop g.outgoing_requests ≡ done q)
        × IsValid q
        × (contents q ≡ rs))
    → Offered g.tcp_socket (encode_request (message g r)) x
    → Returns (Round g r rs) (requested g x)
requested-Round g r rs (SendResult.accepted, t) (q, p, v, c) f = rw (p) (record {
  queue = c;
  valid = v;
  is_healthy = f.sendable.0;
  within = f.within;
  epoch = refl;
  next = refl;
  bytes =
      f.appended
      ∙ ap (λ b. pending g.tcp_socket ++ (if b then encode_request (message g r) else []))
          (sym f.taken);
})
requested-Round g r rs (SendResult.full, t) q f = (refl, sym f.taken)
requested-Round g r rs (SendResult.invalid, t) q f = f.sendable

first_of {ℓ} : {A : Type ℓ} {x y : A} {xs ys : List A} → x ∷ xs ≡ y ∷ ys → x ≡ y
first_of e = cc

request_all-Requested :
    (fuel : ℕ) (g : OrderGateway) (rs : List ClientRequest)
    → IsValid g.outgoing_requests
    → contents g.outgoing_requests ≡ rs
    → healthy g.tcp_socket ≡ true
    → IsWithin g.tcp_socket
    → length rs < fuel
    → Returns (Requested g rs) (request_all fuel g)
unfolding request_all request
request_all-Requested zero g rs v e h w f = absurd (omega (arith, f))
request_all-Requested (suc fuel) g [] v e h w f =
    let t = subst (Taken g.outgoing_requests) e (take_lem g.outgoing_requests v) in
    rw (t.0) (record {
      sent = [];
      left = [];
      split = refl;
      queue = e;
      bytes = sym (append-nil (pending g.tcp_socket));
      stopped = λ r ls z. cc;
    })
request_all-Requested (suc fuel) g (r ∷ rs) v e h w f =
    let (first, (q, popped, _, valid, rest)) =
      subst (Taken g.outgoing_requests) e (take_lem g.outgoing_requests v) in
    let frame = encode_request (message g r) in
    rw (first) (
      Returns-bind (Round g r rs) (Requested g (r ∷ rs)) (requested g (Tcp.send g.tcp_socket frame))
        _
        (requested-Round g r rs (Tcp.send g.tcp_socket frame) (q, popped, valid, rest)
          (offer g.tcp_socket frame h w (request_frame (message g r))))
        (λ x y. after x y (λ u d.
          request_all-Requested fuel u rs d.valid d.queue d.is_healthy d.within
            (omega (arith, f)))))
  where
    after :
        (x : Bool × OrderGateway)
        → Round g r rs x
        → ((u : OrderGateway) → Sent g r rs u → Returns (Requested u rs) (request_all fuel u))
        → Returns (Requested g (r ∷ rs)) (if x.0 then request_all fuel x.1 else done x.1)
    after (true, u) d next =
        Returns-map (Requested u rs) (Requested g (r ∷ rs)) (request_all fuel u)
          (λ z a. record {
            sent = r ∷ a.sent;
            left = a.left;
            split = ap (λ l. r ∷ l) a.split;
            queue = a.queue;
            bytes =
                a.bytes
                ∙ ap (λ p. p ++ stream u.session_epoch u.next_outgoing_seq_num a.sent) d.bytes
                ∙ append_assoc (pending g.tcp_socket) (encode_request (message g r))
                    (stream u.session_epoch u.next_outgoing_seq_num a.sent)
                ∙ ap
                    (λ n.
                      pending g.tcp_socket
                      ++ (encode_request (message g r) ++ stream u.session_epoch n a.sent))
                    d.next
                ∙ ap
                    (λ n.
                      pending g.tcp_socket
                      ++ (encode_request (message g r)
                          ++ stream n (increment g.next_outgoing_seq_num) a.sent))
                    d.epoch;
            stopped = a.stopped;
          })
          (next u d)
    after (false, u) (same, full) next = record {
      sent = [];
      left = r ∷ rs;
      split = refl;
      queue = ap (λ (z : OrderGateway). contents z.outgoing_requests) same ∙ e;
      bytes =
          ap (λ (z : OrderGateway). pending z.tcp_socket) same
          ∙ sym (append-nil (pending g.tcp_socket));
      stopped = λ s ls z.
          ap (λ (y : OrderGateway). has_room y.tcp_socket (encode_request (message y s))) same
          ∙ subst (λ q. has_room g.tcp_socket (encode_request (message g q)) ≡ false) (first_of z)
              full;
    }

-- A session in doubt stops for good, with nothing sent.
pub record Stopped (g h : OrderGateway) : Type 0 where
  pub socket : h.tcp_socket ≡ g.tcp_socket
  pub queue : h.outgoing_requests ≡ g.outgoing_requests
  pub in_doubt : h.session_healthy ≡ false
  pub over : h.run ≡ false

-- A round of `run`, with fuel for all requests in the queue: while connection and session are
-- sound, the first requests leave the queue and exactly their frames, in this order and with
-- numbers that count up, go to the connection, until the queue is empty or the next frame does not
-- fit; and else nothing is sent and the gateway stops.
pub run_round_lem :
    (fuel : ℕ) (g : OrderGateway) (rs : List ClientRequest)
    → IsValid g.outgoing_requests
    → contents g.outgoing_requests ≡ rs
    → IsWithin g.tcp_socket
    → length rs < fuel
    → Returns
        (λ h.
          ((healthy g.tcp_socket && g.session_healthy) ≡ true → Requested g rs h)
          × ((healthy g.tcp_socket && g.session_healthy) ≡ false → Stopped g h))
        (run_round fuel g)
unfolding run_round
run_round_lem fuel g rs v e w f =
    elim (Bool-cases (not (healthy g.tcp_socket) || not g.session_healthy)) [
      | inl a ↦ rw (a) (
        λ x. absurd (ground (arith, a, x)),
        λ x. record { socket = refl; queue = refl; in_doubt = refl; over = refl },
      )
      | inr a ↦
          let fine : healthy g.tcp_socket ≡ true = ground (arith, a) in
          rw (a) (
            Returns-map (Requested g rs) _ (request_all fuel g)
              (λ h r. (λ x. r, λ x. absurd (ground (arith, a, x))))
              (request_all-Requested fuel g rs v e fine w f))
    ]
