-- ===== src/OrderServer/Returning.antt =====
-- Dealing with a frame, or with all of a buffer, ends without a fault, and every frame that is
-- taken off the buffer has been accepted or rejected.
use trade_system.Common.{
  ℕ, zero, suc, ◌+◌, ◌*◌, ◌<◌, ◌≡◌, ◌∙◌, refl, ap, ◌&&◌, not, ltb, leb, leb→le, if◌then◌else◌, Bool,
  true, false, List, [], ◌∷◌, ◌++◌, length, length-take, length-drop, take, drop, drop-drop, Option,
  none, some, done, update_self, Returns, Returns-bind, Returns-map, arith, Bool-cases, inl, inr,
  if_both,
}
use trade_system.Sequencer.{Sequencer, can_accept, add_client_request}
use trade_system.Messages.{ClientRequest, SequencedRequest, RejectReason}
use trade_system.Tcp.{TcpSocket, healthy}
use trade_system.Wire.Orders.{decode_request}
use trade_system.Wire.Total.{Any, decode_request-Returns}
use trade_system.Wire.Validate.{validate}
use trade_system.OrderServer.{
  OrderServer, is_none, check_client, reject, refuse_fields, after_reject, accept, dispatch,
  process_decoded, accepted, process_frame, frames, recv_callback, bind_first, blank_request,
}
use trade_system.OrderServer.Rejecting.{
  Handled, bind_first-Same, check_client-Same, Handled-Same, reject-Handled,
}

refuse_fields-Handled :
    (s : OrderServer) (k : ℕ) (q : SequencedRequest) (reason : RejectReason)
    → healthy (s.sockets k) ≡ true
    → Returns (Handled k s) (refuse_fields s k q reason)
unfolding refuse_fields
refuse_fields-Handled s k q reason h =
    let m = bind_first-Same s k q in
    let b = bind_first s k q in
    Returns-bind (Handled k b) (Handled k s) (reject b k q reason) _
      (reject-Handled b k q reason (ap (λ f. healthy (f k)) m.sockets ∙ h))
      (λ x y. Handled-Same k s b _ m (after x y))
  where
    after :
        {b : OrderServer} (x : Bool × OrderServer)
        → Handled k b x
        → Handled k b (after_reject q.request.client_id x)
    after (true, t) y = record {
      counted = y.counted;
      is_healthy = y.is_healthy;
      inbound = y.inbound;
      same_capacity = y.same_capacity;
    }
    after (false, t) y = record {
      counted = y.counted;
      is_healthy = y.is_healthy;
      inbound = y.inbound;
      same_capacity = y.same_capacity;
    }

-- The sequencer takes a request when it says that it can.
abbrev pub queued : Sequencer → ℕ → ClientRequest → Sequencer
queued f t r = record f { pending = f.pending ++ record { recv_time = t; request = r } ∷ [] }

pub accept_lem :
    (s : OrderServer) (k t : ℕ) (q : SequencedRequest)
    → accept s k t q ≡ (
        if can_accept s.fifo_sequencer
        then done (true, accepted s k q (queued s.fifo_sequencer t q.request))
        else done (false, s))
unfolding accept add_client_request
accept_lem s k t q = elim (Bool-cases (can_accept s.fifo_sequencer)) [
  | inl e ↦
      let room : leb 1024 (length s.fifo_sequencer.pending) ≡ false = ground (arith, e) in
      rw (e, room) refl
  | inr e ↦ rw (e) refl
]

accept-Handled :
    (s : OrderServer) (k t : ℕ) (q : SequencedRequest)
    → healthy (s.sockets k) ≡ true
    → Returns (Handled k s) (accept s k t q)
accept-Handled s k t q h =
    let m =
      bind_first-Same (record s { fifo_sequencer = queued s.fifo_sequencer t q.request }) k q in
    rw (accept_lem s k t q) (
      if_both (Returns (Handled k s)) (can_accept s.fifo_sequencer)
        (record {
          counted = omega (arith, m.rejected);
          is_healthy = ap (λ f. healthy (f k)) m.sockets ∙ h;
          inbound = ap (λ f. (f k).inbound_data) m.sockets;
          same_capacity = ap (λ f. (f k).capacity) m.sockets;
        })
        (record { counted = omega arith; is_healthy = h; inbound = refl; same_capacity = refl }))

dispatch-Handled :
    (k t : ℕ) (q : SequencedRequest) (x : RejectReason × OrderServer)
    → healthy (x.1.sockets k) ≡ true
    → Returns (Handled k x.1) (dispatch k t q x)
dispatch-Handled k t q (reason, s) h =
    if_both (Returns (Handled k s)) (is_none reason && not (is_none (validate q.request)))
      (refuse_fields-Handled s k q (validate q.request) h)
      (if_both (Returns (Handled k s)) (not (is_none reason)) (reject-Handled s k q reason h)
        (accept-Handled s k t q h))

process_decoded-Handled :
    (s : OrderServer) (k t : ℕ) (q : Option SequencedRequest)
    → healthy (s.sockets k) ≡ true
    → Returns (Handled k s) (process_decoded s k t q)
process_decoded-Handled s k t none h =
    dispatch-Handled k t blank_request (RejectReason.version, s) h
process_decoded-Handled s k t (some q) h =
    let m = check_client-Same s k q in
    let c = check_client s k q in
    Returns-map (Handled k c.1) (Handled k s) (dispatch k t q c) (λ x. Handled-Same k s c.1 x m)
      (dispatch-Handled k t q c (ap (λ f. healthy (f k)) m.sockets ∙ h))

-- A frame of the full length, on an open connection.
pub process_frame-Handled :
    (s : OrderServer) (k t : ℕ) (frame : List ℕ)
    → healthy (s.sockets k) ≡ true
    → length frame ≡ 50
    → Returns (Handled k s) (process_frame s k t frame)
unfolding process_frame
process_frame-Handled s k t frame h e =
    Returns-bind Any (Handled k s) (decode_request frame) (λ q. process_decoded s k t q)
      (decode_request-Returns frame e) (λ q u. process_decoded-Handled s k t q h)

-- What the loop over the frames comes to: each of `taken` frames of 50 bytes is accepted or
-- rejected, and the others are left.
pub record Read (k : ℕ) (s : OrderServer) (input : List ℕ) (x : OrderServer × List ℕ) : Type 0 where
  pub taken : ℕ
  pub left : x.1 ≡ drop (taken * 50) input
  pub counted :
      x.0.accepted_frames + x.0.rejected_frames ≡ s.accepted_frames + s.rejected_frames + taken
  pub is_healthy : healthy (x.0.sockets k) ≡ true
  pub inbound : (x.0.sockets k).inbound_data ≡ (s.sockets k).inbound_data
  pub same_capacity : (x.0.sockets k).capacity ≡ (s.sockets k).capacity

frames-Read :
    (fuel : ℕ) (s : OrderServer) (k t : ℕ) (input : List ℕ)
    → healthy (s.sockets k) ≡ true
    → length input < fuel
    → Returns (Read k s input) (frames fuel s k t input)
unfolding frames
frames-Read zero s k t input h f = absurd (omega (arith, f))
frames-Read (suc fuel) s k t input h f = elim (Bool-cases (ltb (length input) 50)) [
  | inl e ↦ rw (e) (record {
    taken = 0;
    left = refl;
    counted = omega arith;
    is_healthy = h;
    inbound = refl;
    same_capacity = refl;
  })
  | inr e ↦ rw (e) (
      Returns-bind (Handled k s) (Read k s input) (process_frame s k t (take 50 input)) _
        (process_frame-Handled s k t (take 50 input) h (length-take 50 input (ground (arith, e))))
        (λ x y. more x y (
          frames-Read fuel x.1 k t (drop 50 input) y.is_healthy (
            omega (arith, length-drop 50 input, f, leb→le 50 (length input) (ground (arith, e)))))))
]
  where
    more :
        (x : Bool × OrderServer)
        → Handled k s x
        → Returns (Read k x.1 (drop 50 input)) (frames fuel x.1 k t (drop 50 input))
        → Returns
            (Read k s input)
            (if not x.0 then done (x.1, input) else frames fuel x.1 k t (drop 50 input))
    more (false, u) y r = record {
      taken = 0;
      left = refl;
      counted = y.counted;
      is_healthy = y.is_healthy;
      inbound = y.inbound;
      same_capacity = y.same_capacity;
    }
    more (true, u) y r =
        Returns-map (Read k u (drop 50 input)) (Read k s input) (frames fuel u k t (drop 50 input))
          (λ z v. record {
            taken = suc v.taken;
            left =
                v.left ∙ drop-drop (v.taken * 50) 50 input ∙ ap (λ n. drop n input) (omega arith);
            counted = omega (arith, v.counted, y.counted);
            is_healthy = v.is_healthy;
            inbound = v.inbound ∙ y.inbound;
            same_capacity = v.same_capacity ∙ y.same_capacity;
          })
          r

-- `recvCallback` on an open connection returns, whatever bytes are in the buffer: the connection is
-- still open, and what leaves the buffer are whole frames from its front, each of which has been
-- counted as accepted or as rejected. A server that accepts nothing any more leaves all of it.
pub record Received (k : ℕ) (s s' : OrderServer) : Type 0 where
  pub taken : ℕ
  pub left : (s'.sockets k).inbound_data ≡ drop (taken * 50) (s.sockets k).inbound_data
  pub counted :
      s'.accepted_frames + s'.rejected_frames ≡ s.accepted_frames + s.rejected_frames + taken
  pub is_healthy : healthy (s'.sockets k) ≡ true
  pub same_capacity : (s'.sockets k).capacity ≡ (s.sockets k).capacity

pub recv_callback-Received :
    (s : OrderServer) (k t : ℕ)
    → healthy (s.sockets k) ≡ true
    → Returns (Received k s) (recv_callback s k t)
unfolding recv_callback
recv_callback-Received s k t h =
    let input = (s.sockets k).inbound_data in
    if_both (Returns (Received k s)) (not s.accepting)
      (record {
        taken = 0;
        left = refl;
        counted = omega arith;
        is_healthy = h;
        same_capacity = refl;
      })
      (Returns-bind (Read k s input) (Received k s) (frames (suc (length input)) s k t input) _
        (frames-Read (suc (length input)) s k t input h (omega arith))
        (λ x r. record {
          taken = r.taken;
          left =
              ap (λ (u : TcpSocket). u.inbound_data)
                (update_self x.0.sockets k (record (x.0.sockets k) { inbound_data = x.1 }))
              ∙ r.left;
          counted = r.counted;
          is_healthy =
              ap healthy (update_self x.0.sockets k (record (x.0.sockets k) { inbound_data = x.1 }))
              ∙ r.is_healthy;
          same_capacity =
              ap (λ (u : TcpSocket). u.capacity)
                (update_self x.0.sockets k (record (x.0.sockets k) { inbound_data = x.1 }))
              ∙ r.same_capacity;
        }))
