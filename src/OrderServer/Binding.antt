-- ===== src/OrderServer/Binding.antt =====
-- Who is bound to whom: the connection of a client belongs to that client alone.
use trade_system.Common.{
  ℕ, suc, ◌≡◌, ◌∙◌, refl, ap, sym, not, ltb, Bool, true, false, List, Option, none, some, Outcome,
  done, Returns, OnDone, OnDone-bind, OnDone-map, Returns-OnDone, fault, out_of_fuel, zero,
  Bool-cases, inl, inr, if_both, update_self, update_ne, length, take, drop,
}
use trade_system.Messages.{SequencedRequest, RejectReason}
use trade_system.Sequencer.{can_accept}
use trade_system.Tcp
use trade_system.Tcp.{TcpSocket, SendResult, healthy}
use trade_system.Wire.Orders.{encode_response, decode_request}
use trade_system.Wire.Validate.{validate}
use trade_system.OrderServer.Returning.{queued, accept_lem, Received, recv_callback-Received}
use trade_system.OrderServer.{
  OrderServer, is_none, is_set, check_client, reject, rejected, reject_counted, reject_entry,
  set_socket, reject_message, bind_new, bind_first, refuse_fields, after_reject, accept, dispatch,
  process_decoded, process_frame, frames, recv_callback, blank_request,
}
use trade_system.OrderServer.Bound.{
  IsBound, IsReady, Cleared, check_client-Cleared, update-IsBound, check_client-IsBound,
}

-- What a rejection leaves alone.
pub record Ties (s s' : OrderServer) : Type 0 where
  pub tcp : s'.cid_tcp_socket ≡ s.cid_tcp_socket
  pub client : s'.socket_client ≡ s.socket_client
  pub epochs : s'.cid_session_epoch ≡ s.cid_session_epoch
  pub sequencer : s'.fifo_sequencer ≡ s.fifo_sequencer

pub Ties-IsBound : (s s' : OrderServer) → Ties s s' → IsBound s → IsBound s'
Ties-IsBound s s' t b c k e =
    let old = b c k (ap (λ f. f c) (sym t.tcp) ∙ e) in
    (ap (λ f. f k) t.client ∙ old.0, λ z. old.1 (ap (λ f. f c) (sym t.epochs) ∙ z))

abbrev Bound : Bool × OrderServer → Type 0
Bound x = IsBound x.1

abbrev pub Tied : OrderServer → Bool × OrderServer → Type 0
Tied s x = Ties s x.1

abbrev unchanged : (s : OrderServer) → Ties s s
unchanged s = record { tcp = refl; client = refl; epochs = refl; sequencer = refl }

reject_counted-Ties :
    (s t : OrderServer) (k : ℕ) (o : Option ℕ) → Ties s t → Ties s (reject_counted t k o)
reject_counted-Ties s t k none h = record {
  tcp = h.tcp;
  client = h.client;
  epochs = h.epochs;
  sequencer = h.sequencer;
}
reject_counted-Ties s t k (some c) h = record {
  tcp = h.tcp;
  client = h.client;
  epochs = h.epochs;
  sequencer = h.sequencer;
}

rejected-Ties :
    (s t : OrderServer) (k : ℕ) (x : SendResult × TcpSocket)
    → Ties s t
    → OnDone (Tied s) (rejected t k x)
rejected-Ties s t k (SendResult.accepted, u) h =
    reject_counted-Ties s (set_socket t k u) k (t.socket_client k)
      (record { tcp = h.tcp; client = h.client; epochs = h.epochs; sequencer = h.sequencer })
rejected-Ties s t k (SendResult.full, u) h = h
rejected-Ties s t k (SendResult.invalid, u) h = tt

reject_entry-Ties : (s : OrderServer) (k : ℕ) (o : Option ℕ) → Ties s (reject_entry s k o)
reject_entry-Ties s k none = record { tcp = refl; client = refl; epochs = refl; sequencer = refl }
reject_entry-Ties s k (some c) = unchanged s

pub reject-Ties :
    (s : OrderServer) (k : ℕ) (q : SequencedRequest) (reason : RejectReason)
    → OnDone (Tied s) (reject s k q reason)
unfolding reject
reject-Ties s k q reason =
    rejected-Ties s (reject_entry s k (s.socket_client k)) k
      (Tcp.send (s.sockets k) (encode_response (reject_message s k q reason)))
      (reject_entry-Ties s k (s.socket_client k))

-- The first frame binds its connection, which no other client has.
pub bind_first-IsBound :
    (s : OrderServer) (k : ℕ) (q : SequencedRequest)
    → IsReady s k q
    → IsBound s
    → IsBound (bind_first s k q)
bind_first-IsBound s k q r b =
    let c = q.request.client_id in
    if_both IsBound (is_set (s.cid_tcp_socket c)) b (
      update-IsBound s (bind_new s k q) c k b r.mine refl refl
        (λ d n. update_ne s.cid_session_epoch c d q.session_epoch n)
        (λ z. r.some_epoch (sym (update_self s.cid_session_epoch c q.session_epoch) ∙ z)))

reject-IsBound :
    (s : OrderServer) (k : ℕ) (q : SequencedRequest) (reason : RejectReason)
    → IsBound s
    → OnDone Bound (reject s k q reason)
reject-IsBound s k q reason b =
    OnDone-map (Tied s) Bound (reject s k q reason) (λ x h. Ties-IsBound s x.1 h b)
      (reject-Ties s k q reason)

refuse_fields-IsBound :
    (s : OrderServer) (k : ℕ) (q : SequencedRequest) (reason : RejectReason)
    → IsReady s k q
    → IsBound s
    → OnDone Bound (refuse_fields s k q reason)
unfolding refuse_fields
refuse_fields-IsBound s k q reason r b =
    let t = bind_first s k q in
    OnDone-bind (Tied t) Bound (reject t k q reason) _ (reject-Ties t k q reason)
      (λ x h. counted x (Ties-IsBound t x.1 h (bind_first-IsBound s k q r b)))
  where
    counted :
        (x : Bool × OrderServer) → IsBound x.1 → IsBound (after_reject q.request.client_id x).1
    counted (true, t) h = h
    counted (false, t) h = h

accept-IsBound :
    (s : OrderServer) (k t : ℕ) (q : SequencedRequest)
    → IsReady s k q
    → IsBound s
    → OnDone Bound (accept s k t q)
accept-IsBound s k t q r b =
    let u = record s { fifo_sequencer = queued s.fifo_sequencer t q.request } in
    let bound =
      bind_first-IsBound u k q
        (record {
          known = r.known;
          mine = r.mine;
          owner = r.owner;
          epoch = r.epoch;
          some_epoch = r.some_epoch;
          in_order = r.in_order;
          certain = r.certain;
        })
        b in
    rw (accept_lem s k t q) (if_both (OnDone Bound) (can_accept s.fifo_sequencer) bound b)

dispatch-IsBound :
    (k t : ℕ) (q : SequencedRequest) (x : RejectReason × OrderServer)
    → Cleared k q x
    → IsBound x.1
    → OnDone Bound (dispatch k t q x)
dispatch-IsBound k t q (reason, s) r b = elim (Bool-cases (is_none reason)) [
  | inl e ↦ rw (e) (
      if_both (OnDone Bound) (not (is_none (validate q.request)))
        (refuse_fields-IsBound s k q (validate q.request) (r e) b) (accept-IsBound s k t q (r e) b))
  | inr e ↦ rw (e) (reject-IsBound s k q reason b)
]

process_decoded-IsBound :
    (s : OrderServer) (k t : ℕ) (q : Option SequencedRequest)
    → IsBound s
    → OnDone Bound (process_decoded s k t q)
process_decoded-IsBound s k t none b =
    dispatch-IsBound k t blank_request (RejectReason.version, s) (λ h. cc) b
process_decoded-IsBound s k t (some q) b =
    dispatch-IsBound k t q (check_client s k q) (check_client-Cleared s k q)
      (check_client-IsBound s k q b)

abbrev BoundRest : OrderServer × List ℕ → Type 0
BoundRest x = IsBound x.0

frames-IsBound :
    (fuel : ℕ) (s : OrderServer) (k t : ℕ) (input : List ℕ)
    → IsBound s
    → OnDone BoundRest (frames fuel s k t input)
unfolding frames process_frame
frames-IsBound zero s k t input b = tt
frames-IsBound (suc fuel) s k t input b = if_both (OnDone BoundRest) (ltb (length input) 50) b (
    OnDone-bind Bound BoundRest (process_frame s k t (take 50 input)) _
      (OnDone-bind (λ q. Unit {0}) Bound (decode_request (take 50 input)) _
        (any (decode_request (take 50 input))) (λ q u. process_decoded-IsBound s k t q b))
      (λ x h.
        if_both (OnDone BoundRest) (not x.0) h (frames-IsBound fuel x.1 k t (drop 50 input) h)))
  where
    any : (m : Outcome (Option SequencedRequest)) → OnDone (λ q. Unit {0}) m
    any (done q) = tt
    any fault = tt
    any out_of_fuel = tt

-- Whatever bytes come in on whatever open connection: `recvCallback` returns, and if each client's
-- connection named that client back before, in a session with a number, then it still does.
pub recv_callback-IsBound :
    (s : OrderServer) (k t : ℕ)
    → healthy (s.sockets k) ≡ true
    → IsBound s
    → Returns (λ s'. Received k s s' × IsBound s') (recv_callback s k t)
unfolding recv_callback
recv_callback-IsBound s k t h b =
    let input = (s.sockets k).inbound_data in
    Returns-OnDone (Received k s) IsBound (recv_callback s k t) (recv_callback-Received s k t h) (
      if_both (OnDone IsBound) (not s.accepting) b (
        OnDone-bind BoundRest IsBound (frames (suc (length input)) s k t input) _
          (frames-IsBound (suc (length input)) s k t input b) (λ x g. g)))
