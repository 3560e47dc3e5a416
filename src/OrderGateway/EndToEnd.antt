-- ===== src/OrderGateway/EndToEnd.antt =====
-- From the exchange's buffer to the client's queue: the frames of some responses, and the gateway that
-- reads them.
use trade_system.Common.{
  ℕ, zero, suc, ◌+◌, ◌≤◌, ◌<◌, ◌≡◌, ◌∙◌, refl, ap, sym, subst, ◌==◌, ◌||◌, not, ltb, if◌then◌else◌,
  true, false, List, [], ◌∷◌, ◌++◌, length, length-append, take-append, drop-append, some, done,
  ◌>>=◌, arith, append-nil, append_assoc,
}
use trade_system.Messages.{ClientResponse, SequencedResponse}
use trade_system.LfQueue
use trade_system.LfQueue.{LfQueue}
use trade_system.LfQueue.Refine.{IsValid, contents, try_push_lem}
use trade_system.Wire.Orders.{encode_response, decode_response}
use trade_system.Wire.OrderTrips.{ResponseFits, decode_response-encode_response}
use trade_system.OrderGateway.{
  OrderGateway, increment, is_sound, delivered, deliver, on_frame, frames, keep_rest, recv_callback,
}

abbrev pub numbered : ℕ → ℕ → ClientResponse → SequencedResponse
numbered epoch n r = record { seq_num = n; response = r; session_epoch = epoch }

-- The frames of some responses, counted up from `n`.
abbrev pub stream : ℕ → ℕ → List ClientResponse → List ℕ
stream epoch n [] = []
stream epoch n (r ∷ rs) = encode_response (numbered epoch n r) ++ stream epoch (increment n) rs

-- They fit their frames, are for the client `c` and make sense.
abbrev pub IsStream : ℕ → ℕ → ℕ → List ClientResponse → Type 0
IsStream c epoch n [] = Unit {0}
IsStream c epoch n (r ∷ rs) =
    ResponseFits (numbered epoch n r)
    × (r.client_id ≡ c)
    × (is_sound r ≡ true)
    × IsStream c epoch (increment n) rs

-- All of it has arrived.
pub record Arrived (g : OrderGateway) (rs : List ClientResponse) (h : OrderGateway) : Type 0 where
  pub queue : contents h.incoming_responses ≡ contents g.incoming_responses ++ rs
  pub valid : IsValid h.incoming_responses
  pub same_client : h.client_id ≡ g.client_id
  pub same_epoch : h.session_epoch ≡ g.session_epoch

try_push-capacity :
    (q : LfQueue ClientResponse) (v : ClientResponse)
    → (LfQueue.try_push q v).1.capacity ≡ q.capacity
unfolding LfQueue.try_push
try_push-capacity q v = ground arith

-- The gateway after one frame.
record Step (g : OrderGateway) (r : ClientResponse) (h : OrderGateway) : Type 0 where
  queue : contents h.incoming_responses ≡ contents g.incoming_responses ++ r ∷ []
  valid : IsValid h.incoming_responses
  capacity : h.incoming_responses.capacity ≡ g.incoming_responses.capacity
  client : h.client_id ≡ g.client_id
  epoch : h.session_epoch ≡ g.session_epoch
  next : h.next_exp_seq_num ≡ increment g.next_exp_seq_num

on_frame-Step :
    (g : OrderGateway) (now : ℕ) (r : ClientResponse)
    → IsValid g.incoming_responses
    → r.client_id ≡ g.client_id
    → is_sound r ≡ true
    → length (contents g.incoming_responses) < g.incoming_responses.capacity
    → (h : OrderGateway) × (on_frame g now (some (numbered g.session_epoch g.next_exp_seq_num r))
        ≡ (true, h))
      × Step g r h
unfolding deliver
on_frame-Step g now r v c s room =
    let (valid, answer, queue) = try_push_lem g.incoming_responses r v in
    let yes : ltb (length (contents g.incoming_responses)) g.incoming_responses.capacity ≡ true =
      ground (arith, room) in
    let q = (LfQueue.try_push g.incoming_responses r).1 in
    let mine : (not (g.session_epoch == g.session_epoch) || not (r.client_id == g.client_id))
        ≡ false =
      ground (arith, c) in
    let not_old : ltb g.next_exp_seq_num g.next_exp_seq_num ≡ false = ground arith in
    let expected : not (g.next_exp_seq_num == g.next_exp_seq_num) ≡ false = ground arith in
    (
      delivered g now r q,
      rw (mine, not_old, expected, s, answer ∙ yes) refl,
      record {
        queue =
            queue
            ∙ ap
                (λ b.
                  if b
                  then contents g.incoming_responses ++ r ∷ []
                  else contents g.incoming_responses)
                yes;
        valid = valid;
        capacity = try_push-capacity g.incoming_responses r;
        client = refl;
        epoch = refl;
        next = refl;
      },
    )

-- A whole frame that is dealt with comes off the front.
round :
    (fuel : ℕ) (g k : OrderGateway) (now : ℕ) (frame rest : List ℕ) (m : SequencedResponse)
    → length frame ≡ 79
    → decode_response frame ≡ done (some m)
    → on_frame g now (some m) ≡ (true, k)
    → frames (suc fuel) g now (frame ++ rest) ≡ frames fuel k now rest
unfolding frames
round fuel g k now frame rest m long trip on =
    let big : ltb (length (frame ++ rest)) 79 ≡ false =
      ground (arith, length-append frame rest, long) in
    rw (big, take-append frame rest 79 long, drop-append frame rest 79 long, trip, on) refl

nothing : (fuel : ℕ) (g : OrderGateway) (now : ℕ) → frames (suc fuel) g now [] ≡ done (g, [])
unfolding frames
nothing fuel g now = refl

-- Reading the frames one after the other.
frames-Arrived :
    (fuel : ℕ) (g : OrderGateway) (now : ℕ) (rs : List ClientResponse)
    → IsValid g.incoming_responses
    → IsStream g.client_id g.session_epoch g.next_exp_seq_num rs
    → length (contents g.incoming_responses) + length rs ≤ g.incoming_responses.capacity
    → length (stream g.session_epoch g.next_exp_seq_num rs) < fuel
    → (h : OrderGateway) × (frames fuel g now (stream g.session_epoch g.next_exp_seq_num rs)
        ≡ done (h, []))
      × Arrived g rs h
frames-Arrived zero g now rs v i room f = absurd (omega (arith, f))
frames-Arrived (suc fuel) g now [] v i room f = (
  g,
  nothing fuel g now,
  record {
    queue = sym (append-nil (contents g.incoming_responses));
    valid = v;
    same_client = refl;
    same_epoch = refl;
  },
)
frames-Arrived (suc fuel) g now (r ∷ rs) v (fits, mine, sound, more) room f =
    let m = numbered g.session_epoch g.next_exp_seq_num r in
    let rest = stream g.session_epoch (increment g.next_exp_seq_num) rs in
    let (trip, long) = decode_response-encode_response m fits in
    let (k, on, step) = on_frame-Step g now r v mine sound (omega (arith, room)) in
    let same : stream k.session_epoch k.next_exp_seq_num rs ≡ rest =
      ap (λ e. stream e k.next_exp_seq_num rs) step.epoch
      ∙ ap (λ n. stream g.session_epoch n rs) step.next in
    let more' : IsStream k.client_id k.session_epoch k.next_exp_seq_num rs =
      subst (λ c. IsStream c k.session_epoch k.next_exp_seq_num rs) (sym step.client)
        (subst (λ e. IsStream g.client_id e k.next_exp_seq_num rs) (sym step.epoch)
          (subst (λ n. IsStream g.client_id g.session_epoch n rs) (sym step.next) more)) in
    let count = ap length step.queue ∙ length-append (contents g.incoming_responses) (r ∷ []) in
    let (h, ran, a) =
      frames-Arrived fuel k now rs step.valid more' (omega (arith, count, room, step.capacity))
        (omega (arith, f, ap length same, length-append (encode_response m) rest, long)) in
    (
      h,
      round fuel g k now (encode_response m) rest m long trip on
          ∙ ap (frames fuel k now) (sym same)
          ∙ ran,
      record {
        queue =
            a.queue
            ∙ ap (λ l. l ++ rs) step.queue
            ∙ append_assoc (contents g.incoming_responses) (r ∷ []) rs;
        valid = a.valid;
        same_client = a.same_client ∙ step.client;
        same_epoch = a.same_epoch ∙ step.epoch;
      },
    )

-- `recvCallback`, when the buffer holds the frames of some responses, numbered from the expected
-- number on, each of which fits its frame, is sound and for this client and session, and the queue
-- has room for all: exactly these responses go to the end of the queue, and the buffer is empty.
pub recv_callback-Arrived :
    (g : OrderGateway) (now : ℕ) (rs : List ClientResponse)
    → IsValid g.incoming_responses
    → g.tcp_socket.inbound_data ≡ stream g.session_epoch g.next_exp_seq_num rs
    → IsStream g.client_id g.session_epoch g.next_exp_seq_num rs
    → length (contents g.incoming_responses) + length rs ≤ g.incoming_responses.capacity
    → (h : OrderGateway) × (recv_callback g now ≡ done h)
      × (contents h.incoming_responses ≡ contents g.incoming_responses ++ rs)
      × (h.tcp_socket.inbound_data ≡ [])
unfolding recv_callback
recv_callback-Arrived g now rs v e i room =
    let (h, ran, a) =
      frames-Arrived (suc (length (stream g.session_epoch g.next_exp_seq_num rs))) g now rs v i room
        (omega arith) in
    (
      record h { tcp_socket = record (h.tcp_socket) { inbound_data = [] } },
      ap (λ input. frames (suc (length input)) g now input >>= keep_rest) e
          ∙ ap (λ x. x >>= keep_rest) ran,
      a.queue,
      refl,
    )
