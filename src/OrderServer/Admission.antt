-- ===== src/OrderServer/Admission.antt =====
-- Which requests get into the sequencer.
use trade_system.Common.{
  ℕ, ◌≡◌, ◌≢◌, ◌∙◌, ◌⊎◌, inl, inr, refl, ap, sym, subst, Bool, true, false, Bool-cases, Option,
  none, some, List, length, Outcome, done, fault, out_of_fuel, ◌>>=◌, Returns, OnDone, OnDone-bind,
  OnDone-map, Returns-OnDone, arith, if_both, update_self,
}
use trade_system.Messages.{SequencedRequest, RejectReason}
use trade_system.Tcp.{healthy}
use trade_system.Sequencer.{Sequencer, can_accept}
use trade_system.Wire.Orders.{decode_request}
use trade_system.Wire.Validate.{validate, is_query}
use trade_system.OrderServer.{
  OrderServer, increment, is_none, is_set, is_other, check_owner, check_client, with_session,
  reject, refuse_fields, after_reject, bind_first, accept, dispatch, process_decoded, process_frame,
  blank_request,
}
use trade_system.OrderServer.Returning.{queued, accept_lem, process_frame-Handled}
use trade_system.OrderServer.Rejecting.{Handled}
use trade_system.OrderServer.Binding.{Tied, reject-Ties}
use trade_system.OrderServer.Bound.{IsReady, Cleared, check_client-Cleared}

-- A request that went in: it is valid, its client is bound to this connection in the session that
-- it names, it has the expected number, which is used up, and it stands last in the sequencer.
pub record Admitted (k t : ℕ) (f : Sequencer) (q : SequencedRequest) (x : Bool × OrderServer)
    : Type 0 where
  pub dealt_with : x.0 ≡ true
  pub valid : is_none (validate q.request) ≡ true
  pub bound : x.1.cid_tcp_socket q.request.client_id ≡ some k
  pub session : x.1.cid_session_epoch q.request.client_id ≡ q.session_epoch
  pub some_epoch : q.session_epoch ≢ 0
  pub next : x.1.cid_next_exp_seq_num q.request.client_id ≡ increment q.seq_num
  pub certain : x.1.cid_session_unknown q.request.client_id ≡ true → is_query q.request.type ≡ true
  pub sequenced : x.1.fifo_sequencer ≡ queued f t q.request

-- Either nothing goes in, or the request does.
abbrev pub InOrOut : ℕ → ℕ → Sequencer → SequencedRequest → Bool × OrderServer → Type 0
InOrOut k t f q x = (x.1.fifo_sequencer ≡ f) ⊎ Admitted k t f q x

-- What the first good frame does to the binding of its client.
record BindsTo (k : ℕ) (q : SequencedRequest) (s u : OrderServer) : Type 0 where
  bound : u.cid_tcp_socket q.request.client_id ≡ some k
  session : u.cid_session_epoch q.request.client_id ≡ q.session_epoch
  expected : u.cid_next_exp_seq_num ≡ s.cid_next_exp_seq_num
  unknown : u.cid_session_unknown ≡ s.cid_session_unknown
  sequencer : u.fifo_sequencer ≡ s.fifo_sequencer

owner_is : (o : Option ℕ) (k : ℕ) → is_set o ≡ true → is_other k o ≡ false → o ≡ some k
owner_is none k h f = cc
owner_is (some c) k h f = ap some (ground (arith, f))

bind_first-BindsTo :
    (s : OrderServer) (k : ℕ) (q : SequencedRequest)
    → IsReady s k q
    → BindsTo k q s (bind_first s k q)
bind_first-BindsTo s k q r =
    let c = q.request.client_id in
    elim (Bool-cases (is_set (s.cid_tcp_socket c))) [
      | inl e ↦ rw (e) (record {
        bound = owner_is (s.cid_tcp_socket c) k e r.owner;
        session = sym (r.epoch e);
        expected = refl;
        unknown = refl;
        sequencer = refl;
      })
      | inr e ↦ rw (e) (record {
        bound = update_self s.cid_tcp_socket c (some k);
        session = update_self s.cid_session_epoch c q.session_epoch;
        expected = refl;
        unknown = refl;
        sequencer = refl;
      })
    ]

accept-InOrOut :
    (s : OrderServer) (k t : ℕ) (q : SequencedRequest)
    → IsReady s k q
    → is_none (validate q.request) ≡ true
    → OnDone (InOrOut k t s.fifo_sequencer q) (accept s k t q)
accept-InOrOut s k t q r v =
    let c = q.request.client_id in
    let u = record s { fifo_sequencer = queued s.fifo_sequencer t q.request } in
    let b = bind_first-BindsTo u k q (record {
      known = r.known;
      mine = r.mine;
      owner = r.owner;
      epoch = r.epoch;
      some_epoch = r.some_epoch;
      in_order = r.in_order;
      certain = r.certain;
    }) in
    rw (accept_lem s k t q) (
      if_both (OnDone (InOrOut k t s.fifo_sequencer q)) (can_accept s.fifo_sequencer)
        (inr (record {
          dealt_with = refl;
          valid = v;
          bound = b.bound;
          session = b.session;
          some_epoch = r.some_epoch;
          next =
              update_self (bind_first u k q).cid_next_exp_seq_num c _
              ∙ ap increment (ap (λ f. f c) b.expected ∙ sym r.in_order);
          certain = λ h. r.certain (ap (λ f. f c) (sym b.unknown) ∙ h);
          sequenced = b.sequencer;
        }))
        (inl refl))

refuse_fields-out :
    (s : OrderServer) (k t : ℕ) (q : SequencedRequest) (reason : RejectReason)
    → OnDone (InOrOut k t s.fifo_sequencer q) (refuse_fields s k q reason)
unfolding refuse_fields
refuse_fields-out s k t q reason =
    let u = bind_first s k q in
    OnDone-bind (Tied u) (InOrOut k t s.fifo_sequencer q) (reject u k q reason) _
      (reject-Ties u k q reason) (λ x h. inl (kept x ∙ h.sequencer ∙ same))
  where
    kept :
        (x : Bool × OrderServer)
        → (after_reject q.request.client_id x).1.fifo_sequencer ≡ x.1.fifo_sequencer
    kept (true, v) = refl
    kept (false, v) = refl

    same : (bind_first s k q).fifo_sequencer ≡ s.fifo_sequencer
    same =
        if_both (λ (u : OrderServer). u.fifo_sequencer ≡ s.fifo_sequencer)
          (is_set (s.cid_tcp_socket q.request.client_id)) refl refl

dispatch-InOrOut :
    (k t : ℕ) (q : SequencedRequest) (x : RejectReason × OrderServer)
    → Cleared k q x
    → OnDone (InOrOut k t x.1.fifo_sequencer q) (dispatch k t q x)
dispatch-InOrOut k t q (reason, s) r =
    let P = InOrOut k t s.fifo_sequencer q in
    elim (Bool-cases (is_none reason)) [
      | inl e ↦ elim (Bool-cases (is_none (validate q.request))) [
        | inl f ↦ rw (e, f) (accept-InOrOut s k t q (r e) f)
        | inr f ↦ rw (e, f) (refuse_fields-out s k t q (validate q.request))
      ]
      | inr e ↦ rw (e) (
          OnDone-map (Tied s) P (reject s k q reason) (λ x h. inl h.sequencer)
            (reject-Ties s k q reason))
    ]

-- The checks leave the sequencer alone.
check_owner-sequencer :
    (s : OrderServer) (k : ℕ) (q : SequencedRequest) (o : Option ℕ)
    → (with_session q (check_owner s k q o)).1.fifo_sequencer ≡ s.fifo_sequencer
check_owner-sequencer s k q none = refl
check_owner-sequencer s k q (some owner) = ground (arith)

check_client-sequencer :
    (s : OrderServer) (k : ℕ) (q : SequencedRequest)
    → (check_client s k q).1.fifo_sequencer ≡ s.fifo_sequencer
unfolding check_client
check_client-sequencer s k q =
    ground (arith, check_owner-sequencer s k q (s.cid_tcp_socket q.request.client_id))

on_value {ℓ κ} :
    {A : Type ℓ} {B : Type κ} (Q : B → Type 0) (m : Outcome A) (f : A → Outcome B)
    → ((a : A) → m ≡ done a → OnDone Q (f a))
    → OnDone Q (m >>= f)
on_value Q (done a) f h = h a refl
on_value Q fault f h = tt
on_value Q out_of_fuel f h = tt

-- What a frame does to the sequencer.
abbrev pub FrameIn : ℕ → ℕ → OrderServer → List ℕ → Bool × OrderServer → Type 0
FrameIn k t s frame x =
    (x.1.fifo_sequencer ≡ s.fifo_sequencer)
    ⊎ ((q : SequencedRequest) × (decode_request frame ≡ done (some q))
        × Admitted k t s.fifo_sequencer q x)

process_decoded-In :
    (s : OrderServer) (k t : ℕ) (frame : List ℕ) (o : Option SequencedRequest)
    → decode_request frame ≡ done o
    → OnDone (FrameIn k t s frame) (process_decoded s k t o)
process_decoded-In s k t frame none e =
    OnDone-map (Tied s) (FrameIn k t s frame) (reject s k blank_request RejectReason.version)
      (λ x h. inl h.sequencer) (reject-Ties s k blank_request RejectReason.version)
process_decoded-In s k t frame (some q) e =
    let c = check_client s k q in
    let same = check_client-sequencer s k q in
    OnDone-map (InOrOut k t c.1.fifo_sequencer q) (FrameIn k t s frame) (dispatch k t q c)
      (λ x h. elim h [
        | inl a ↦ inl (a ∙ same)
        | inr a ↦ inr (q, e, subst (λ f. Admitted k t f q x) same a)
      ])
      (dispatch-InOrOut k t q c (check_client-Cleared s k q))

-- A whole frame on an open connection: the code returns, and what it puts into the sequencer is
-- nothing or the decoded request alone, and that only if the request is valid, its client is bound
-- to this connection in the session that it names, it is a query when the session is in doubt, and
-- it has the expected sequence number, after which the next one is expected.
pub process_frame-FrameIn :
    (s : OrderServer) (k t : ℕ) (frame : List ℕ)
    → healthy (s.sockets k) ≡ true
    → length frame ≡ 50
    → Returns (λ x. Handled k s x × FrameIn k t s frame x) (process_frame s k t frame)
unfolding process_frame
process_frame-FrameIn s k t frame h e =
    Returns-OnDone (Handled k s) (FrameIn k t s frame) (process_frame s k t frame)
      (process_frame-Handled s k t frame h e)
      (on_value (FrameIn k t s frame) (decode_request frame) (λ o. process_decoded s k t o)
        (λ o f. process_decoded-In s k t frame o f))
