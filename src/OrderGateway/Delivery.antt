-- ===== src/OrderGateway/Delivery.antt =====
-- What the gateway hands on: frames of its buffer, in their order, each of its own client and session
-- and with the number that is due.
use trade_system.Common.{
  ℕ, zero, suc, ◌<◌, ◌≤◌, ◌≡◌, refl, sym, subst, not, ltb, List, [], ◌∷◌, ◌++◌, length, length-take,
  length-drop, take, drop, Option, none, some, Returns, Returns-bind, Returns-map, returned, arith,
  Bool-cases, inl, inr, if_both, All, append-nil, done,
}
use trade_system.Messages.{SequencedResponse}
use trade_system.LfQueue.Refine.{IsValid, contents}
use trade_system.Wire.Orders.{decode_response}
use trade_system.Wire.Total.{Any, decode_response-Returns}
use trade_system.OrderGateway.{OrderGateway, on_frame, frames, recv_callback}
use trade_system.OrderGateway.Passing.{
  CountUp, IsOurs, responses_of, Passed, nothing_new, joined, OneOf, on_frame-PassedOne,
}

-- Some of the frames of 79 bytes that the bytes begin with, in their order and as they decode.
pub data Picked : List ℕ → List SequencedResponse → Type 0 where
  stop : (input : List ℕ) → Picked input []
  skip :
      (input : List ℕ) (ms : List SequencedResponse)
      → 79 ≤ length input
      → Picked (drop 79 input) ms
      → Picked input ms
  take_frame :
      (input : List ℕ) (m : SequencedResponse) (ms : List SequencedResponse)
      → 79 ≤ length input
      → decode_response (take 79 input) ≡ done (some m)
      → Picked (drop 79 input) ms
      → Picked input (m ∷ ms)

-- The loop: what is handed on is picked from the input, and the rest is not longer than the input.
record PassedRest (g : OrderGateway) (input : List ℕ) (x : OrderGateway × List ℕ) : Type 0 where
  passed : Passed g x.0
  picked : Picked input passed.new
  shorter : length x.1 ≤ length input

unpicked : (input : List ℕ) (ms : List SequencedResponse) → ms ≡ [] → Picked input ms
unpicked input ms e = subst (Picked input) (sym e) (stop input)

Picked-frame :
    (input : List ℕ) (o : Option SequencedResponse) (one more : List SequencedResponse)
    → 79 ≤ length input
    → decode_response (take 79 input) ≡ done o
    → OneOf o one
    → Picked (drop 79 input) more
    → Picked input (one ++ more)
Picked-frame input none one more l d e p =
    subst (λ ms. Picked input (ms ++ more)) (sym e) (skip input more l p)
Picked-frame input (some m) one more l d (inl e) p =
    subst (λ ms. Picked input (ms ++ more)) (sym e) (skip input more l p)
Picked-frame input (some m) one more l d (inr e) p =
    subst (λ ms. Picked input (ms ++ more)) (sym e) (take_frame input m more l d p)

frames-PassedRest :
    (fuel : ℕ) (g : OrderGateway) (now : ℕ) (input : List ℕ)
    → IsValid g.incoming_responses
    → length input < fuel
    → Returns (PassedRest g input) (frames fuel g now input)
unfolding frames nothing_new joined
frames-PassedRest zero g now input v f = absurd (omega (arith, f))
frames-PassedRest (suc fuel) g now input v f = elim (Bool-cases (ltb (length input) 79)) [
  | inl e ↦ rw (e) (record {
    passed = nothing_new g g v refl refl refl refl refl refl;
    picked = stop input;
    shorter = omega arith;
  })
  | inr e ↦
      let long : 79 ≤ length input = ground (arith, e) in
      let dropping = length-drop 79 input in
      let shorter : length (drop 79 input) < fuel = omega (arith, dropping, f, long) in
      rw (e) (
        Returns-bind (λ o. decode_response (take 79 input) ≡ done o) (PassedRest g input)
          (decode_response (take 79 input)) _
          (returned Any (decode_response (take 79 input))
            (decode_response-Returns (take 79 input) (length-take 79 input long)))
          (λ o d.
            let p = on_frame-PassedOne g now o v in
            let u = (on_frame g now o).1 in
            if_both (Returns (PassedRest g input)) (not (on_frame g now o).0)
              (record {
                passed = p.passed;
                picked =
                    subst (Picked input) (append-nil p.passed.new)
                      (Picked-frame input o p.passed.new [] long d p.one (stop (drop 79 input)));
                shorter = omega arith;
              })
              (Returns-map (PassedRest u (drop 79 input)) (PassedRest g input)
                (frames fuel u now (drop 79 input))
                (λ x r. record {
                  passed = joined g u x.0 p.passed r.passed;
                  picked = Picked-frame input o p.passed.new r.passed.new long d p.one r.picked;
                  shorter = omega (arith, r.shorter, dropping);
                })
                (frames-PassedRest fuel u now (drop 79 input) p.passed.valid shorter))))
]

-- What `recvCallback` has done: the responses that were handed on, of the bytes in the buffer.
pub record Received (g h : OrderGateway) : Type 0 where
  pub new : List SequencedResponse
  pub picked : Picked g.tcp_socket.inbound_data new
  pub queue : contents h.incoming_responses ≡ contents g.incoming_responses ++ responses_of new
  pub valid : IsValid h.incoming_responses
  pub ours : All (IsOurs g) new
  pub numbers : CountUp g.next_exp_seq_num new h.next_exp_seq_num
  pub shorter : length h.tcp_socket.inbound_data ≤ length g.tcp_socket.inbound_data
  pub same_capacity : h.tcp_socket.capacity ≡ g.tcp_socket.capacity

-- `recvCallback` on any bytes, with a valid queue: it returns, and what it hands on goes to the end
-- of the queue and is the responses of some of the frames in the buffer, in their order, as they
-- decode; each of these frames names this client and the session of the gateway and holds a sound
-- response, and their numbers count up from the expected one without a gap, to the one that is
-- expected next. No bytes are added to the buffer.
pub recv_callback-Received :
    (g : OrderGateway) (now : ℕ)
    → IsValid g.incoming_responses
    → Returns (Received g) (recv_callback g now)
unfolding recv_callback
recv_callback-Received g now v =
    let input = g.tcp_socket.inbound_data in
    Returns-bind (PassedRest g input) (Received g) (frames (suc (length input)) g now input) _
      (frames-PassedRest (suc (length input)) g now input v (omega arith))
      (λ x p. record {
        new = p.passed.new;
        picked = p.picked;
        queue = p.passed.queue;
        valid = p.passed.valid;
        ours = p.passed.ours;
        numbers = p.passed.numbers;
        shorter = p.shorter;
        same_capacity = p.passed.same_capacity;
      })
