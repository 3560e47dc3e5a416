-- ===== src/Publisher/Tests.antt =====
-- One update on its way, and the theorem at this input.
use trade_system.Common.{refl, arith, [], ◌∷◌, true, false, Returns}
use trade_system.Common.Int.{pos}
use trade_system.Types.{Side}
use trade_system.Messages.{MarketUpdate, MarketUpdateType, SequencedUpdate}
use trade_system.LfQueue.{LfQueue}
use trade_system.LfQueue.Refine.{IsValid}
use trade_system.Multicast
use trade_system.Multicast.{McastSocket, SendAnswer, Receipt, Answers}
use trade_system.Multicast.Datagrams.{Offered, send-Offered}
use trade_system.Publisher.{Publisher, increment_of, publish_all}
use trade_system.Publisher.Numbering.{Published, publish_all-Published}

abbrev trade : MarketUpdate
trade = record {
  type = MarketUpdateType.trade;
  order_id = 1;
  ticker_id = 0;
  side = Side.buy;
  price = pos 100;
  qty = 2;
  priority = 1;
}

abbrev busy : Answers
busy = record { sending = SendAnswer.not_now; receiving = Receipt.nothing }

abbrev ready : Answers
ready = record { sending = SendAnswer.all_sent; receiving = Receipt.nothing }

abbrev socket : McastSocket
socket = record {
  has_fd = true;
  outbound_data = 9 ∷ [];
  inbound_data = [];
  receive_fault = false;
  truncated_datagrams = 0;
  send_retries = 0;
  sent_bytes = 0;
  received_bytes = 0;
}

abbrev updates : LfQueue MarketUpdate
updates = record {
  capacity = 2;
  store = λ _. trade;
  head = 0;
  tail = 1;
  full_count = 0;
  high_watermark = 1;
}

abbrev snapshots : LfQueue SequencedUpdate
snapshots = record {
  capacity = 2;
  store = λ _. increment_of 0 trade;
  head = 0;
  tail = 0;
  full_count = 0;
  high_watermark = 0;
}

abbrev publisher : Publisher
publisher = record {
  outgoing_md_updates = updates;
  snapshot_md_updates = snapshots;
  incremental_socket = socket;
  next_inc_seq_num = 5;
}

updates-IsValid : IsValid updates
updates-IsValid = record {
  positive = omega arith;
  head_below = omega arith;
  tail_below = omega arith;
  bounded = omega arith;
}

snapshots-IsValid : IsValid snapshots
snapshots-IsValid = record {
  positive = omega arith;
  head_below = omega arith;
  tail_below = omega arith;
  bounded = omega arith;
}

publish_all-Published_example :
    Returns (Published publisher (trade ∷ [])) (publish_all (λ i. busy) 2 0 publisher)
publish_all-Published_example =
    publish_all-Published (λ i. busy) 2 0 publisher (trade ∷ []) (λ i. tt) updates-IsValid refl
      snapshots-IsValid (omega arith) (omega arith) (omega arith)

send-Offered_example :
    Returns (Offered socket (1 ∷ 2 ∷ [])) (Multicast.send ready socket (1 ∷ 2 ∷ []))
send-Offered_example = send-Offered ready socket (1 ∷ 2 ∷ []) tt (omega arith)
