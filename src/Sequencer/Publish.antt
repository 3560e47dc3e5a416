-- ===== src/Sequencer/Publish.antt =====
-- A round of publication: what goes to the queue, in which order, and what is kept.
use trade_system.Common.{
  ◌≡◌, ◌∙◌, refl, ap, sym, subst, ltb, if◌then◌else◌, false, List, [], ◌∷◌, ◌++◌, arith, length,
  append_assoc, append-nil, Bool-cases, inl, inr, ◌⊎◌,
}
use trade_system.Messages.{ClientRequest}
use trade_system.LfQueue
use trade_system.LfQueue.{LfQueue}
use trade_system.LfQueue.Refine.{IsValid, contents, try_push_lem}
use trade_system.Common.{ℕ}
use trade_system.Sequencer.Sort.{IsSorted, received_at, stable_sort_lem}
use trade_system.Sequencer.{Sequencer, TimedRequest, stable_sort, publish, sequence_and_publish}

abbrev pub requests_of : List TimedRequest → List ClientRequest
requests_of [] = []
requests_of (r ∷ rs) = r.request ∷ requests_of rs

-- After a round of `rs`: `sent` went to the queue in this order, and `s.pending` are the others.
-- Something is left only if the queue is full.
pub record Published (q : LfQueue ClientRequest) (rs : List TimedRequest) (s : Sequencer)
    : Type 0 where
  pub sent : List TimedRequest
  pub split : rs ≡ sent ++ s.pending
  pub valid : IsValid s.incoming_requests
  pub queue : contents s.incoming_requests ≡ contents q ++ requests_of sent
  pub full : (s.pending ≡ []) ⊎ (ltb (length (contents s.incoming_requests)) q.capacity ≡ false)

try_push-capacity :
    (q : LfQueue ClientRequest) (v : ClientRequest) → (LfQueue.try_push q v).1.capacity ≡ q.capacity
unfolding LfQueue.try_push
try_push-capacity q v = ground arith

publish_lem :
    (q : LfQueue ClientRequest) (rs : List TimedRequest) → IsValid q → Published q rs (publish q rs)
unfolding publish
publish_lem q [] h = record {
  sent = [];
  split = refl;
  valid = h;
  queue = sym (append-nil (contents q));
  full = inl refl;
}
publish_lem q (r ∷ rs) h =
    let pushed = LfQueue.try_push q r.request in
    let (valid, answer, after) = try_push_lem q r.request h in
    elim (Bool-cases (ltb (length (contents q)) q.capacity)) [
      | inl e ↦
          let left = publish pushed.1 rs in
          let rest = publish_lem pushed.1 rs valid in
          rw (answer ∙ e) (record {
            sent = r ∷ rest.sent;
            split = ap (λ l. r ∷ l) rest.split;
            valid = rest.valid;
            queue =
                rest.queue
                ∙ ap (λ l. l ++ requests_of rest.sent)
                    (after ∙ ap (λ b. if b then contents q ++ r.request ∷ [] else contents q) e)
                ∙ append_assoc (contents q) (r.request ∷ []) (requests_of rest.sent);
            full =
                subst
                  (λ c.
                    (left.pending ≡ [])
                    ⊎ (ltb (length (contents left.incoming_requests)) c ≡ false))
                  (try_push-capacity q r.request) rest.full;
          })
      | inr e ↦
          let same : contents pushed.1 ≡ contents q =
            after ∙ ap (λ b. if b then contents q ++ r.request ∷ [] else contents q) e in
          rw (answer ∙ e) (record {
            sent = [];
            split = refl;
            valid = valid;
            queue = same ∙ sym (append-nil (contents q));
            full = inr (ap (λ l. ltb (length l) q.capacity) same ∙ e);
          })
    ]

sequence_and_publish_split :
    (s : Sequencer)
    → IsValid s.incoming_requests
    → Published s.incoming_requests (stable_sort s.pending) (sequence_and_publish s)
unfolding sequence_and_publish
sequence_and_publish_split s h = publish_lem s.incoming_requests (stable_sort s.pending) h

-- A round in the order of receipt: what went to the queue, followed by what is left, is sorted by the
-- time of receipt, and the requests of each moment are those of the round, in the order they came in.
pub record InOrder (s s' : Sequencer) : Type 0 where
  pub sent : List TimedRequest
  pub queue : contents s'.incoming_requests ≡ contents s.incoming_requests ++ requests_of sent
  pub sorted : IsSorted (sent ++ s'.pending)
  pub same : (t : ℕ) → received_at t (sent ++ s'.pending) ≡ received_at t s.pending

-- `sequenceAndPublish` on a valid queue: the requests that it publishes and, behind them, those that it
-- keeps are in the order of their times of receipt, and those of one moment are all the requests of
-- that moment, in the order in which they were added.
pub sequence_and_publish-InOrder :
    (s : Sequencer) → IsValid s.incoming_requests → InOrder s (sequence_and_publish s)
sequence_and_publish-InOrder s h =
    let p = sequence_and_publish_split s h in
    let (sorted, same) = stable_sort_lem s.pending in
    record {
      sent = p.sent;
      queue = p.queue;
      sorted = subst IsSorted p.split sorted;
      same = λ t. ap (received_at t) (sym p.split) ∙ same t;
    }

-- `sequenceAndPublish`: the first part of the sorted round, as long as there is room, goes to the
-- end of the queue in this order, and the rest stays for the next round.
pub sequence_and_publish_lem :
    (s : Sequencer)
    → IsValid s.incoming_requests
    → Published s.incoming_requests (stable_sort s.pending) (sequence_and_publish s)
sequence_and_publish_lem = sequence_and_publish_split
