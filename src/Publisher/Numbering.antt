-- ===== src/Publisher/Numbering.antt =====
-- The increments on the wire and the updates for the snapshots are the same ones, with the same
-- numbers, in the order of the engine's queue.
use trade_system.Common.{
  ℕ, zero, suc, ◌+◌, ◌≤◌, ◌<◌, ◌≡◌, ◌∙◌, refl, ap, sym, subst, ltb, not, if◌then◌else◌, Bool, true,
  false, List, [], ◌∷◌, ◌++◌, length, length-append, append-nil, append_assoc, some, done, ◌>>=◌,
  Returns, Returns-bind, arith,
}
use trade_system.Messages.{MarketUpdate, SequencedUpdate}
use trade_system.LfQueue
use trade_system.LfQueue.{LfQueue}
use trade_system.LfQueue.Refine.{IsValid, contents, try_push_lem}
use trade_system.LfQueue.Take.{Taken, take_lem}
use trade_system.Multicast
use trade_system.Multicast.{McastSocket, Answers}
use trade_system.Multicast.Datagrams.{
  Offered, IsExpected, IsShort, flatten, flatten-append, send-Offered,
}
use trade_system.Wire.Market.{encode_update}
use trade_system.Publisher.{Publisher, increment_of, next_number, sent, publish_one, publish_all}

-- Some updates with their numbers, and their bytes.
abbrev pub numbered : ℕ → List MarketUpdate → List SequencedUpdate
numbered n [] = []
numbered n (u ∷ us) = increment_of n u ∷ numbered (next_number n) us

abbrev pub bytes_of : List SequencedUpdate → List ℕ
bytes_of [] = []
bytes_of (m ∷ ms) = encode_update m ++ bytes_of ms

-- Of the updates `us` the first ones are published.
pub record Published (p : Publisher) (us : List MarketUpdate) (x : Publisher × List (List ℕ))
    : Type 0 where
  pub published : List MarketUpdate
  pub left : List MarketUpdate
  pub split : us ≡ published ++ left
  pub queue : contents x.0.outgoing_md_updates ≡ left
  pub snapshots :
      contents x.0.snapshot_md_updates
      ≡ contents p.snapshot_md_updates ++ numbered p.next_inc_seq_num published
  pub wire :
      flatten x.1 ++ x.0.incremental_socket.outbound_data
      ≡ p.incremental_socket.outbound_data ++ bytes_of (numbered p.next_inc_seq_num published)

-- One update on its way.
record Step (p : Publisher) (u : MarketUpdate) (us : List MarketUpdate) (q : Publisher)
    (gone : List (List ℕ)) : Type 0 where
  queue : contents q.outgoing_md_updates ≡ us
  valid : IsValid q.outgoing_md_updates
  snapshots :
      contents q.snapshot_md_updates
      ≡ contents p.snapshot_md_updates ++ increment_of p.next_inc_seq_num u ∷ []
  snapshots_valid : IsValid q.snapshot_md_updates
  capacity : q.snapshot_md_updates.capacity ≡ p.snapshot_md_updates.capacity
  next : q.next_inc_seq_num ≡ next_number p.next_inc_seq_num
  short : IsShort q.incremental_socket.outbound_data
  wire :
      flatten gone ++ q.incremental_socket.outbound_data
      ≡ p.incremental_socket.outbound_data ++ encode_update (increment_of p.next_inc_seq_num u)

abbrev Round :
    Publisher → MarketUpdate → List MarketUpdate → Bool × Publisher × List (List ℕ) → Type 0
Round p u us (true, q, gone) = Step p u us q gone
Round p u us (false, q, gone) =
    (q.outgoing_md_updates ≡ p.outgoing_md_updates)
    × (q.snapshot_md_updates ≡ p.snapshot_md_updates)
    × (flatten gone ++ q.incremental_socket.outbound_data ≡ p.incremental_socket.outbound_data)

try_push-capacity :
    (q : LfQueue SequencedUpdate) (v : SequencedUpdate)
    → (LfQueue.try_push q v).1.capacity ≡ q.capacity
unfolding LfQueue.try_push
try_push-capacity q v = ground arith

sent-Round :
    (p : Publisher) (u : MarketUpdate) (us : List MarketUpdate)
    (x : Bool × McastSocket × List (List ℕ))
    → ((q : LfQueue MarketUpdate) × (LfQueue.pop p.outgoing_md_updates ≡ done q)
        × IsValid q
        × (contents q ≡ us))
    → IsValid p.snapshot_md_updates
    → length (contents p.snapshot_md_updates) < p.snapshot_md_updates.capacity
    → Offered p.incremental_socket (encode_update (increment_of p.next_inc_seq_num u)) x
    → Returns (Round p u us) (sent p u x)
sent-Round p u us (false, s, gone) pops v room o =
    (refl, refl, o.kept.bytes ∙ append-nil p.incremental_socket.outbound_data)
sent-Round p u us (true, s, gone) (q, popped, valid, rest) v room o =
    let m = increment_of p.next_inc_seq_num u in
    let (a, b, c) = try_push_lem p.snapshot_md_updates m v in
    let fits : ltb (length (contents p.snapshot_md_updates)) p.snapshot_md_updates.capacity ≡ true =
      ground (arith, room) in
    rw (popped, b ∙ fits)
      (record {
        queue = rest;
        valid = valid;
        snapshots =
            c
            ∙ ap
                (λ f.
                  if f
                  then contents p.snapshot_md_updates ++ m ∷ []
                  else contents p.snapshot_md_updates)
                fits;
        snapshots_valid = a;
        capacity = try_push-capacity p.snapshot_md_updates m;
        next = refl;
        short = o.kept.fits;
        wire = o.kept.bytes;
      })

-- The inner loop, with fuel for all updates in the queue, room for them in the snapshot queue and a
-- kernel that takes a datagram or asks to try again: it returns, the first updates have left the
-- queue, and the same updates with the same consecutive numbers stand last in the snapshot queue
-- and are what has been added to the bytes that went out or wait to go out.
pub publish_all-Published :
    (answer : ℕ → Answers) (fuel n : ℕ) (p : Publisher) (us : List MarketUpdate)
    → ((i : ℕ) → IsExpected (answer i))
    → IsValid p.outgoing_md_updates
    → contents p.outgoing_md_updates ≡ us
    → IsValid p.snapshot_md_updates
    → length (contents p.snapshot_md_updates) + length us ≤ p.snapshot_md_updates.capacity
    → IsShort p.incremental_socket.outbound_data
    → length us < fuel
    → Returns (Published p us) (publish_all answer fuel n p)
unfolding publish_all publish_one
publish_all-Published answer zero n p us k v e w room short f = absurd (omega (arith, f))
publish_all-Published answer (suc fuel) n p [] k v e w room short f =
    let t = subst (Taken p.outgoing_md_updates) e (take_lem p.outgoing_md_updates v) in
    rw (t.0) (record {
      published = [];
      left = [];
      split = refl;
      queue = e;
      snapshots = sym (append-nil (contents p.snapshot_md_updates));
      wire = sym (append-nil p.incremental_socket.outbound_data);
    })
publish_all-Published answer (suc fuel) n p (u ∷ us) k v e w room short f =
    let (first, (q, popped, _, valid, rest)) =
      subst (Taken p.outgoing_md_updates) e (take_lem p.outgoing_md_updates v) in
    let frame = encode_update (increment_of p.next_inc_seq_num u) in
    rw (first) (
      Returns-bind (Round p u us) (Published p (u ∷ us)) (publish_one (answer n) p (some u)) _
        (Returns-bind (Offered p.incremental_socket frame) (Round p u us)
          (Multicast.send (answer n) p.incremental_socket frame) _
          (send-Offered (answer n) p.incremental_socket frame (k n) short)
          (λ x o. sent-Round p u us x (q, popped, valid, rest) w (omega (arith, room)) o))
        (λ x h. after x h (λ r gone s.
          publish_all-Published answer fuel (n + 1) r us k s.valid s.queue s.snapshots_valid
            (omega (
              arith,
              ap length s.snapshots,
              length-append (contents p.snapshot_md_updates)
                  (increment_of p.next_inc_seq_num u ∷ []),
              s.capacity,
              room,
            ))
            s.short (omega (arith, f)))))
  where
    joined :
        (r : Publisher) (gone : List (List ℕ)) (s : Step p u us r gone) (l : List MarketUpdate)
        (more : List (List ℕ)) (waits : List ℕ)
        → flatten more ++ waits
          ≡ r.incremental_socket.outbound_data ++ bytes_of (numbered r.next_inc_seq_num l)
        → flatten (gone ++ more) ++ waits
          ≡ p.incremental_socket.outbound_data ++ bytes_of (numbered p.next_inc_seq_num (u ∷ l))
    joined r gone s l more waits h =
        let b = bytes_of (numbered r.next_inc_seq_num l) in
        let frame = encode_update (increment_of p.next_inc_seq_num u) in
        ap (λ z. z ++ waits) (flatten-append gone more)
        ∙ append_assoc (flatten gone) (flatten more) waits
        ∙ ap (λ z. flatten gone ++ z) h
        ∙ sym (append_assoc (flatten gone) r.incremental_socket.outbound_data b)
        ∙ ap (λ z. z ++ b) s.wire
        ∙ append_assoc p.incremental_socket.outbound_data frame b
        ∙ ap (λ m. p.incremental_socket.outbound_data ++ (frame ++ bytes_of (numbered m l))) s.next

    after :
        (x : Bool × Publisher × List (List ℕ))
        → Round p u us x
        → ((r : Publisher) (gone : List (List ℕ))
            → Step p u us r gone
            → Returns (Published r us) (publish_all answer fuel (n + 1) r))
        → Returns (Published p (u ∷ us)) (
            if not x.0
            then done (x.1, x.2)
            else (publish_all answer fuel (n + 1) x.1 >>= λ y. done (y.0, x.2 ++ y.1)))
    after (false, r, gone) (a, b, c) next = record {
      published = [];
      left = u ∷ us;
      split = refl;
      queue = ap contents a ∙ e;
      snapshots = ap contents b ∙ sym (append-nil (contents p.snapshot_md_updates));
      wire = c ∙ sym (append-nil p.incremental_socket.outbound_data);
    }
    after (true, r, gone) s next =
        Returns-bind (Published r us) (Published p (u ∷ us)) (publish_all answer fuel (n + 1) r) _
          (next r gone s)
          (λ y h. record {
            published = u ∷ h.published;
            left = h.left;
            split = ap (λ l. u ∷ l) h.split;
            queue = h.queue;
            snapshots =
                h.snapshots
                ∙ ap (λ l. l ++ numbered r.next_inc_seq_num h.published) s.snapshots
                ∙ append_assoc (contents p.snapshot_md_updates)
                    (increment_of p.next_inc_seq_num u ∷ [])
                    (numbered r.next_inc_seq_num h.published)
                ∙ ap
                    (λ m.
                      contents p.snapshot_md_updates
                      ++ increment_of p.next_inc_seq_num u ∷ numbered m h.published)
                    s.next;
            wire = joined r gone s h.published y.1 y.0.incremental_socket.outbound_data h.wire;
          })
