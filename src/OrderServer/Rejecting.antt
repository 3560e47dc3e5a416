-- ===== src/OrderServer/Rejecting.antt =====
-- What binding, checking and rejecting a frame leave of the order server.
use trade_system.Common.{
  ℕ, ◌+◌, ◌≡◌, ◌∙◌, refl, ap, sym, subst, ◌==◌, leb, if◌then◌else◌, Bool, true, false, length,
  Option, none, some, update_self, Returns, Returns-map, arith, if_both,
}
use trade_system.Messages.{SequencedRequest, SequencedResponse, RejectReason}
use trade_system.Tcp
use trade_system.Tcp.{TcpSocket, SendResult, healthy}
use trade_system.Tcp.Sending.{Sendable, send-Sendable}
use trade_system.Wire.Bytes.{length-▸}
use trade_system.Wire.Orders.{encode_response}
use trade_system.OrderServer.{
  OrderServer, is_none, is_other, check_owner, check_client, may_take_over, with_session, reject,
  rejected, bind_first, is_set, reject_entry, reject_message, reject_counted, set_socket,
}

-- What a frame comes to: the connection is still open, its input is as before, and the counts tell
-- whether the frame is dealt with.
pub record Handled (k : ℕ) (s : OrderServer) (x : Bool × OrderServer) : Type 0 where
  pub counted :
      x.1.accepted_frames + x.1.rejected_frames
      ≡ s.accepted_frames + s.rejected_frames + (if x.0 then 1 else 0)
  pub is_healthy : healthy (x.1.sockets k) ≡ true
  pub inbound : (x.1.sockets k).inbound_data ≡ (s.sockets k).inbound_data
  pub same_capacity : (x.1.sockets k).capacity ≡ (s.sockets k).capacity

-- Neither the counts nor the sockets change.
pub record Same (s s' : OrderServer) : Type 0 where
  pub accepted : s'.accepted_frames ≡ s.accepted_frames
  pub rejected : s'.rejected_frames ≡ s.rejected_frames
  pub sockets : s'.sockets ≡ s.sockets

same : (s : OrderServer) → Same s s
same s = record { accepted = refl; rejected = refl; sockets = refl }

pub bind_first-Same : (s : OrderServer) (k : ℕ) (q : SequencedRequest) → Same s (bind_first s k q)
bind_first-Same s k q =
    if_both (Same s) (is_set (s.cid_tcp_socket q.request.client_id)) (same s)
      (record { accepted = refl; rejected = refl; sockets = refl })

-- The same of the server that comes with a reason.
abbrev Checked : OrderServer → RejectReason × OrderServer → Type 0
Checked s x = Same s x.1

check_owner-Same :
    (s : OrderServer) (k : ℕ) (q : SequencedRequest) (o : Option ℕ) → Same s (check_owner s k q o).1
check_owner-Same s k q none = same s
check_owner-Same s k q (some owner) = if_both (Checked s) (owner == k) (same s) (
    if_both (Checked s) (may_take_over s owner q)
      (record { accepted = refl; rejected = refl; sockets = refl }) (same s))

with_session-Same :
    (s : OrderServer) (q : SequencedRequest) (x : RejectReason × OrderServer)
    → Same s x.1
    → Same s (with_session q x).1
with_session-Same s q (r, t) h = if_both (Checked s) (is_none r) h h

pub check_client-Same :
    (s : OrderServer) (k : ℕ) (q : SequencedRequest) → Same s (check_client s k q).1
unfolding check_client
check_client-Same s k q =
    let c = q.request.client_id in
    if_both (Checked s) (leb 256 c) (same s) (
      if_both (Checked s) (is_other c (s.socket_client k)) (same s) (
        with_session-Same s q (check_owner s k q (s.cid_tcp_socket c))
          (check_owner-Same s k q (s.cid_tcp_socket c))))

pub response_frame : (m : SequencedResponse) → (length (encode_response m) == 0) ≡ false
unfolding encode_response
response_frame m =
    let long : length (encode_response m) ≡ 79 = simp length-▸ in ground (arith, long)

rejected-Handled :
    (s : OrderServer) (k : ℕ) (x : SendResult × TcpSocket)
    → healthy (s.sockets k) ≡ true
    → Sendable (s.sockets k) x
    → Returns (Handled k s) (rejected s k x)
rejected-Handled s k (SendResult.accepted, t) h (a, b, d) = go (s.socket_client k)
  where
    go : (o : Option ℕ) → Handled k s (true, reject_counted (set_socket s k t) k o)
    go none = record {
      counted = omega arith;
      is_healthy = ap healthy (update_self s.sockets k t) ∙ a;
      inbound = ap (λ (u : TcpSocket). u.inbound_data) (update_self s.sockets k t) ∙ b;
      same_capacity = ap (λ (u : TcpSocket). u.capacity) (update_self s.sockets k t) ∙ d;
    }
    go (some c) = record {
      counted = omega arith;
      is_healthy = ap healthy (update_self s.sockets k t) ∙ a;
      inbound = ap (λ (u : TcpSocket). u.inbound_data) (update_self s.sockets k t) ∙ b;
      same_capacity = ap (λ (u : TcpSocket). u.capacity) (update_self s.sockets k t) ∙ d;
    }
rejected-Handled s k (SendResult.full, t) h b = record {
  counted = omega arith;
  is_healthy = h;
  inbound = refl;
  same_capacity = refl;
}
rejected-Handled s k (SendResult.invalid, t) h b = b

pub Handled-Same :
    (k : ℕ) (s s' : OrderServer) (x : Bool × OrderServer)
    → Same s s'
    → Handled k s' x
    → Handled k s x
Handled-Same k s s' x m h = record {
  counted =
      h.counted
      ∙ ap (λ n. n + s'.rejected_frames + (if x.0 then 1 else 0)) m.accepted
      ∙ ap (λ n. s.accepted_frames + n + (if x.0 then 1 else 0)) m.rejected;
  is_healthy = h.is_healthy;
  inbound = h.inbound ∙ ap (λ f. (f k).inbound_data) m.sockets;
  same_capacity = h.same_capacity ∙ ap (λ f. (f k).capacity) m.sockets;
}

reject_entry-Same : (s : OrderServer) (k : ℕ) (o : Option ℕ) → Same s (reject_entry s k o)
reject_entry-Same s k none = record { accepted = refl; rejected = refl; sockets = refl }
reject_entry-Same s k (some c) = same s

pub reject-Handled :
    (s : OrderServer) (k : ℕ) (q : SequencedRequest) (reason : RejectReason)
    → healthy (s.sockets k) ≡ true
    → Returns (Handled k s) (reject s k q reason)
unfolding reject
reject-Handled s k q reason h =
    let m = reject_entry-Same s k (s.socket_client k) in
    let e = reject_entry s k (s.socket_client k) in
    let at_k = ap (λ f. f k) m.sockets in
    let frame = encode_response (reject_message s k q reason) in
    Returns-map (Handled k e) (Handled k s) (rejected e k (Tcp.send (s.sockets k) frame))
      (λ x. Handled-Same k s e x m)
      (rejected-Handled e k (Tcp.send (s.sockets k) frame) (ap healthy at_k ∙ h) (
        subst (λ t. Sendable t (Tcp.send (s.sockets k) frame)) (sym at_k)
          (send-Sendable (s.sockets k) frame h (response_frame (reject_message s k q reason)))))
