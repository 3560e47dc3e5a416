-- ===== src/Sequencer/Tests.antt =====
-- A round of four requests, two of them received at one moment, and the theorems about it.
use trade_system.Common.{ℕ, ◌≡◌, refl, arith, List, [], ◌∷◌}
use trade_system.Common.Int.{pos}
use trade_system.Types.{Side}
use trade_system.Messages.{ClientRequest, ClientRequestType}
use trade_system.LfQueue.{try_push}
use trade_system.LfQueue.Refine.{IsValid}
use trade_system.Sequencer.{Sequencer, TimedRequest, stable_sort, publish, sequence_and_publish}
use trade_system.Sequencer.Publish.{
  InOrder, Published, sequence_and_publish-InOrder, sequence_and_publish_lem,
}

abbrev request : ℕ → ClientRequest
request id = record {
  type = ClientRequestType.new;
  client_id = 1;
  ticker_id = 0;
  order_id = id;
  side = Side.buy;
  price = pos 10;
  qty = 1;
  session_epoch = 1;
  request_seq = id;
}

abbrev timed : ℕ → ℕ → TimedRequest
timed t id = record { recv_time = t; request = request id }

abbrev round : Sequencer
round = record {
  pending = timed 5 1 ∷ timed 3 2 ∷ timed 5 3 ∷ timed 1 4 ∷ [];
  incoming_requests = record {
    capacity = 2;
    store = λ _. request 0;
    head = 3;
    tail = 3;
    full_count = 0;
    high_watermark = 0;
  };
}

abbrev ids : List TimedRequest → List ℕ
ids [] = []
ids (r ∷ rs) = r.request.order_id ∷ ids rs

round_order : ids (stable_sort round.pending) ≡ 4 ∷ 2 ∷ 1 ∷ 3 ∷ []
round_order = refl

round_rest : ids (sequence_and_publish round).pending ≡ 1 ∷ 3 ∷ []
unfolding sequence_and_publish publish try_push
round_rest = refl

round-IsValid : IsValid round.incoming_requests
round-IsValid = record {
  positive = omega arith;
  head_below = omega arith;
  tail_below = omega arith;
  bounded = omega arith;
}

sequence_and_publish-InOrder_example : InOrder round (sequence_and_publish round)
sequence_and_publish-InOrder_example = sequence_and_publish-InOrder round round-IsValid

sequence_and_publish_lem_example :
    Published round.incoming_requests (stable_sort round.pending) (sequence_and_publish round)
sequence_and_publish_lem_example = sequence_and_publish_lem round round-IsValid
