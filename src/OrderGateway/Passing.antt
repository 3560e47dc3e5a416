-- ===== src/OrderGateway/Passing.antt =====
-- What one frame comes to at the gateway: nothing is handed on, or its response.
use trade_system.Common.{
  ℕ, ◌≡◌, ◌∙◌, refl, ap, sym, subst, ◌==◌, ◌||◌, not, ltb, if◌then◌else◌, true, List, [], ◌∷◌, ◌++◌,
  length, Option, none, some, arith, Bool-cases, inl, inr, All, All-append, append-nil,
  append_assoc,
}
use trade_system.Common.{◌⊎◌}
use trade_system.Messages.{ClientResponse, SequencedResponse}
use trade_system.LfQueue
use trade_system.LfQueue.{LfQueue}
use trade_system.LfQueue.Refine.{IsValid, contents, try_push_lem}
use trade_system.OrderGateway.{OrderGateway, increment, break_session, is_sound, deliver, on_frame}

-- The numbers of the messages count up from `n`, and `end` comes next.
abbrev pub CountUp : ℕ → List SequencedResponse → ℕ → Type 0
CountUp n [] end = n ≡ end
CountUp n (m ∷ ms) end = (m.seq_num ≡ n) × CountUp (increment n) ms end

pub CountUp-append :
    (n k end : ℕ) (ms ns : List SequencedResponse)
    → CountUp n ms k
    → CountUp k ns end
    → CountUp n (ms ++ ns) end
CountUp-append n k end [] ns h i = subst (λ x. CountUp x ns end) (sym h) i
CountUp-append n k end (m ∷ ms) ns h i = (h.0, CountUp-append (increment n) k end ms ns h.1 i)

-- A message of this client's session that makes sense.
abbrev pub IsOurs : OrderGateway → SequencedResponse → Type 0
IsOurs g m =
    (m.session_epoch ≡ g.session_epoch)
    × (m.response.client_id ≡ g.client_id)
    × (is_sound m.response ≡ true)

abbrev pub responses_of : List SequencedResponse → List ClientResponse
responses_of [] = []
responses_of (m ∷ ms) = m.response ∷ responses_of ms

pub responses_of-append :
    (ms ns : List SequencedResponse) → responses_of (ms ++ ns) ≡ responses_of ms ++ responses_of ns
responses_of-append [] ns = refl
responses_of-append (m ∷ ms) ns = ap (λ l. m.response ∷ l) (responses_of-append ms ns)

-- What has been handed on between two states.
pub record Passed (g h : OrderGateway) : Type 0 where
  pub new : List SequencedResponse
  pub queue : contents h.incoming_responses ≡ contents g.incoming_responses ++ responses_of new
  pub valid : IsValid h.incoming_responses
  pub ours : All (IsOurs g) new
  pub numbers : CountUp g.next_exp_seq_num new h.next_exp_seq_num
  pub same_client : h.client_id ≡ g.client_id
  pub same_epoch : h.session_epoch ≡ g.session_epoch
  pub inbound : h.tcp_socket.inbound_data ≡ g.tcp_socket.inbound_data
  pub same_capacity : h.tcp_socket.capacity ≡ g.tcp_socket.capacity

unfoldable pub nothing_new :
    (g h : OrderGateway)
    → IsValid h.incoming_responses
    → contents h.incoming_responses ≡ contents g.incoming_responses
    → h.next_exp_seq_num ≡ g.next_exp_seq_num
    → h.client_id ≡ g.client_id
    → h.session_epoch ≡ g.session_epoch
    → h.tcp_socket.inbound_data ≡ g.tcp_socket.inbound_data
    → h.tcp_socket.capacity ≡ g.tcp_socket.capacity
    → Passed g h
nothing_new g h v q n c e i z = record {
  new = [];
  queue = q ∙ sym (append-nil (contents g.incoming_responses));
  valid = v;
  ours = tt;
  numbers = sym n;
  same_client = c;
  same_epoch = e;
  inbound = i;
  same_capacity = z;
}

pub All-IsOurs :
    (g h : OrderGateway) (ms : List SequencedResponse)
    → h.client_id ≡ g.client_id
    → h.session_epoch ≡ g.session_epoch
    → All (IsOurs h) ms
    → All (IsOurs g) ms
All-IsOurs g h [] c e a = tt
All-IsOurs g h (m ∷ ms) c e ((x, y, z), a) = ((x ∙ e, y ∙ c, z), All-IsOurs g h ms c e a)

unfoldable pub joined : (g h k : OrderGateway) → Passed g h → Passed h k → Passed g k
joined g h k a b = record {
  new = a.new ++ b.new;
  queue =
      b.queue
      ∙ ap (λ l. l ++ responses_of b.new) a.queue
      ∙ append_assoc (contents g.incoming_responses) (responses_of a.new) (responses_of b.new)
      ∙ ap (λ l. contents g.incoming_responses ++ l) (sym (responses_of-append a.new b.new));
  valid = b.valid;
  ours =
      All-append (IsOurs g) a.new b.new a.ours
        (All-IsOurs g h b.new a.same_client a.same_epoch b.ours);
  numbers =
      CountUp-append g.next_exp_seq_num h.next_exp_seq_num k.next_exp_seq_num a.new b.new a.numbers
        b.numbers;
  same_client = b.same_client ∙ a.same_client;
  same_epoch = b.same_epoch ∙ a.same_epoch;
  inbound = b.inbound ∙ a.inbound;
  same_capacity = b.same_capacity ∙ a.same_capacity;
}

-- The push either appends or leaves the queue's contents alone.
pushed :
    (q : LfQueue ClientResponse) (r : ClientResponse)
    → IsValid q
    → IsValid (LfQueue.try_push q r).1
      × (contents (LfQueue.try_push q r).1
          ≡ contents q ++ (if (LfQueue.try_push q r).0 then r ∷ [] else []))
pushed q r v =
    let (a, b, c) = try_push_lem q r v in
    (
      a,
      c ∙ elim (Bool-cases (ltb (length (contents q)) q.capacity)) [
        | inl e ↦ rw (b, e) refl
        | inr e ↦ rw (b, e) (sym (append-nil (contents q)))
      ],
    )

-- Of one frame, its message or nothing.
abbrev pub OneOf : Option SequencedResponse → List SequencedResponse → Type 0
OneOf none ms = ms ≡ []
OneOf (some m) ms = (ms ≡ []) ⊎ (ms ≡ m ∷ [])

pub record PassedOne (g : OrderGateway) (o : Option SequencedResponse) (h : OrderGateway)
    : Type 0 where
  pub passed : Passed g h
  pub one : OneOf o passed.new

dropped :
    (g : OrderGateway) (o : Option SequencedResponse) (h : OrderGateway) (p : Passed g h)
    → p.new ≡ []
    → PassedOne g o h
dropped g none h p e = record { passed = p; one = e }
dropped g (some m) h p e = record { passed = p; one = inl e }

break_session-PassedOne :
    (g : OrderGateway) (o : Option SequencedResponse)
    → IsValid g.incoming_responses
    → PassedOne g o (break_session g)
unfolding nothing_new
break_session-PassedOne g o v =
    dropped g o (break_session g) (nothing_new g (break_session g) v refl refl refl refl refl refl)
      refl

deliver-PassedOne :
    (g : OrderGateway) (now : ℕ) (m : SequencedResponse)
    → IsValid g.incoming_responses
    → m.session_epoch ≡ g.session_epoch
    → m.response.client_id ≡ g.client_id
    → m.seq_num ≡ g.next_exp_seq_num
    → PassedOne g (some m) (deliver g now m.response).1
unfolding deliver nothing_new
deliver-PassedOne g now m v e c n =
    let (valid, queue) = pushed g.incoming_responses m.response v in
    elim (Bool-cases (is_sound m.response)) [
      | inl s ↦ elim (Bool-cases (LfQueue.try_push g.incoming_responses m.response).0) [
        | inl p ↦
            rw (s, p)
              (record {
                passed = record {
                  new = m ∷ [];
                  queue =
                      queue
                      ∙ ap
                          (λ b.
                            contents g.incoming_responses ++ (if b then m.response ∷ [] else []))
                          p;
                  valid = valid;
                  ours = ((e, c, s), tt);
                  numbers = (n, refl);
                  same_client = refl;
                  same_epoch = refl;
                  inbound = refl;
                  same_capacity = refl;
                };
                one = inr refl;
              })
        | inr p ↦
            rw (s, p)
              (dropped g (some m) _
                (nothing_new g _ valid
                  (queue
                    ∙ ap (λ b. contents g.incoming_responses ++ (if b then m.response ∷ [] else []))
                        p
                    ∙ append-nil (contents g.incoming_responses))
                  refl refl refl refl refl)
                refl)
      ]
      | inr s ↦ rw (s) (break_session-PassedOne g (some m) v)
    ]

pub on_frame-PassedOne :
    (g : OrderGateway) (now : ℕ) (o : Option SequencedResponse)
    → IsValid g.incoming_responses
    → PassedOne g o (on_frame g now o).1
unfolding nothing_new
on_frame-PassedOne g now none v = break_session-PassedOne g none v
on_frame-PassedOne g now (some m) v =
    let broken = break_session-PassedOne g (some m) v in
    elim (Bool-cases
      (not (m.session_epoch == g.session_epoch) || not (m.response.client_id == g.client_id))) [
        | inl a ↦ rw (a) broken
        | inr a ↦ elim (Bool-cases (ltb m.seq_num g.next_exp_seq_num)) [
          | inl b ↦
              rw (a, b)
                (dropped g (some m) g (nothing_new g g v refl refl refl refl refl refl) refl)
          | inr b ↦ elim (Bool-cases (not (m.seq_num == g.next_exp_seq_num))) [
            | inl c ↦ rw (a, b, c) broken
            | inr c ↦
                rw (a, b, c)
                  (deliver-PassedOne g now m v (ground (arith, a)) (ground (arith, a))
                    (ground (arith, c)))
          ]
        ]
      ]
