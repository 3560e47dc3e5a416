-- ===== src/Engine.antt =====
-- exchange/matcher/matching_engine.h: the engine takes the requests of one queue, runs them on the
-- order book of their ticker, and hands what the book emits to the two outgoing queues. A book
-- calls back into the engine while it works; the calls are replayed here in their order, since
-- they touch nothing that the book reads. The audit journal and the log are left out.
pub mod Sending
mod Tests
use trade_system.Common.{
  ℕ, ◌+◌, ◌*◌, ◌%◌, ◌^◌, ◌&&◌, ltb, ◌==◌, if◌then◌else◌, Bool, true, false, List, [], ◌∷◌, Option,
  none, some, Outcome, done, fault, ◌>>=◌, ◌>>◌, assert, update,
}
use trade_system.Common.Int.{ℤ, pos, ◌+ℤ◌, ◌*ℤ◌}
use trade_system.Types.{side_to_value, order_id_invalid, max_num_clients, max_tickers}
use trade_system.Messages.{
  ClientRequest, ClientRequestType, ClientResponse, ClientResponseType, MarketUpdate, RejectReason,
}
use trade_system.LfQueue
use trade_system.LfQueue.{LfQueue}
use trade_system.Matcher.Book.{Book, Event, response, market, update₂}
use trade_system.Matcher.Requests
use trade_system.Wire.Validate.{validate}

-- `MatchingEngine`
pub record Engine : Type 0 where
  pub ticker_order_book : ℕ → Book
  pub incoming_requests : LfQueue ClientRequest
  pub outgoing_ogw_responses : LfQueue ClientResponse
  pub outgoing_md_updates : LfQueue MarketUpdate
  pub next_response_id : ℕ
  pub response_count : ℕ
  pub client_positions : ℕ → ℕ → ℤ

abbrev pub is_filled : ClientResponseType → Bool
is_filled ClientResponseType.filled = true
is_filled _ = false

abbrev pub in_range : ClientResponse → Bool
in_range r = ltb r.client_id max_num_clients && ltb r.ticker_id max_tickers

-- The positions after a response: a fill moves that of its client and ticker.
unfoldable pub positions_after : (ℕ → ℕ → ℤ) → ClientResponse → ℕ → ℕ → ℤ
positions_after positions r =
    if in_range r && is_filled r.type
    then update₂ positions r.client_id r.ticker_id
        (positions r.client_id r.ticker_id +ℤ pos r.exec_qty *ℤ side_to_value r.side)
    else positions

-- The response as it goes out: with its number and the client's position.
unfoldable pub numbered : Engine → ClientResponse → ClientResponse
unfolding positions_after
numbered e r = record r {
  response_id = e.next_response_id;
  position =
      if in_range r
      then positions_after e.client_positions r r.client_id r.ticker_id
      else r.position;
}

-- `sendClientResponse`
unfoldable pub send_client_response : Engine → ClientResponse → Outcome Engine
unfolding numbered
send_client_response e r = do
  let pushed = LfQueue.try_push e.outgoing_ogw_responses (numbered e r)
  assert pushed.0
  done (record e {
    outgoing_ogw_responses = pushed.1;
    next_response_id = (e.next_response_id + 1) % 2 ^ 64;
    response_count = (e.response_count + 1) % 2 ^ 64;
    client_positions = positions_after e.client_positions r;
  })

-- `sendMarketUpdate`
unfoldable pub send_market_update : Engine → MarketUpdate → Outcome Engine
send_market_update e u = do
  let pushed = LfQueue.try_push e.outgoing_md_updates u
  assert pushed.0
  done (record e { outgoing_md_updates = pushed.1 })

-- The calls that a book has made, in their order.
unfoldable pub deliver : Engine → List Event → Outcome Engine
deliver e [] = done e
deliver e (response r ∷ es) = send_client_response e r >>= λ e'. deliver e' es
deliver e (market u ∷ es) = send_market_update e u >>= λ e'. deliver e' es

-- The REJECTED response to a request that is not valid.
abbrev pub invalid_response : ClientRequest → RejectReason → ClientResponse
invalid_response q reason = record {
  type = ClientResponseType.rejected;
  client_id = q.client_id;
  ticker_id = q.ticker_id;
  client_order_id = q.order_id;
  market_order_id = order_id_invalid;
  side = q.side;
  price = q.price;
  exec_qty = 0;
  leaves_qty = 0;
  reject_reason = reason;
  response_id = 0;
  position = pos 0;
}

-- The `switch` on the type of the request.
abbrev pub run_request : Book → ClientRequest → Outcome Book
run_request b q = elim q.type [
  | ClientRequestType.new ↦ Requests.add b q.client_id q.order_id q.ticker_id q.side q.price q.qty
  | ClientRequestType.cancel ↦ Requests.cancel b q.client_id q.order_id q.ticker_id
  | ClientRequestType.query ↦ done (Requests.query b q.client_id q.order_id)
  | _ ↦ done b
]

-- The book of the request's ticker runs it, and what it emits is delivered.
unfoldable pub run_book : Engine → ClientRequest → Outcome Engine
run_book e q = do
  b ← run_request (record (e.ticker_order_book q.ticker_id) { emitted = [] }) q
  deliver (record e { ticker_order_book = update e.ticker_order_book q.ticker_id b }) b.emitted

-- `processClientRequest`
unfoldable pub process_client_request : Engine → ClientRequest → Outcome Engine
process_client_request e q = elim (validate q) [
  | RejectReason.none_ ↦ run_book e q
  | reason ↦ send_client_response e (invalid_response q reason)
]

-- One round of `run`: the request leaves the queue after it has been processed.
unfoldable pub run_once : Engine → Outcome Engine
run_once e = elim (LfQueue.peek e.incoming_requests) [
  | none ↦ done e
  | some q ↦ do
    e₁ ← process_client_request e q
    queue ← LfQueue.pop e₁.incoming_requests
    done (record e₁ { incoming_requests = queue })
]
