-- ===== src/TradeEngine.antt =====
-- trading/strategy/trade_engine.h and trade_engine.cpp: what the engine does around a strategy. The
-- position of a ticker stands once, in the risk manager's table, which the code reads through a
-- pointer to the position keeper's. Profit and loss are doubles: `pnl` says for a position and a
-- response what the two checks on them answer afterwards. The strategy, its features, the log, the
-- clock and the threads are left out; a handler says whether the strategy is called.
pub mod Admission
pub mod Responses
mod Tests
use trade_system.Common.{
  ℕ, zero, suc, ◌+◌, ◌%◌, ◌^◌, ◌==◌, ◌&&◌, ◌||◌, not, ltb, leb, if◌then◌else◌, Bool, true, false,
  List, [], ◌∷◌, Option, none, some, update,
}
use trade_system.Common.Int.{ℤ, pos, ◌+ℤ◌, ◌*ℤ◌}
use trade_system.Types.{side_to_value, max_tickers}
use trade_system.Messages.{
  ClientRequest, ClientResponse, ClientResponseType, MarketUpdate, RejectReason,
}
use trade_system.LfQueue
use trade_system.LfQueue.{LfQueue}
use trade_system.Matcher.Book.{price_eq}
use trade_system.Wire.Validate.{validate, is_new}
use trade_system.Risk.{
  RiskManager, RiskInfo, RiskCheckResult, is_allowed, is_fill, reserve, rollback, on_response,
}

-- `TradeEngine`; `order_session` is what its pointer leads to, if it has been set.
pub record TradeEngine : Type 0 where
  pub client_id : ℕ
  pub outgoing_requests : LfQueue ClientRequest
  pub admitting : Bool
  pub market_generation : ℕ
  pub applied_generation : ℕ
  pub order_session : Option Bool
  pub reconciled : Bool
  pub last_response_id : ℕ
  pub accepted_requests : ℕ
  pub rejected_requests : ℕ
  pub duplicate_responses : ℕ
  pub risk_manager : RiskManager
  pub volume : ℕ → ℕ

-- `marketReady`
abbrev pub market_ready : TradeEngine → Bool
market_ready e = e.applied_generation == e.market_generation

abbrev pub is_valid : RejectReason → Bool
is_valid RejectReason.none_ = true
is_valid _ = false

-- A session that is known not to be healthy.
abbrev pub is_broken : Option Bool → Bool
is_broken none = false
is_broken (some healthy) = not healthy

-- The first guard of `sendClientRequest`.
abbrev pub is_closed : TradeEngine → ClientRequest → Bool
is_closed e q =
    not e.admitting && is_new q.type
    || not (is_valid (validate q))
    || not (q.client_id == e.client_id)
    || not e.reconciled
    || is_broken e.order_session
    || is_new q.type && not (market_ready e)

-- The push into the queue of the gateway, with the reservation made.
abbrev pub hand_over : TradeEngine → ClientRequest → RiskManager → Bool × TradeEngine
hand_over e q m =
    let pushed = LfQueue.try_push e.outgoing_requests q in
    if pushed.0
    then (
      true,
      record e {
        risk_manager = m;
        outgoing_requests = pushed.1;
        accepted_requests = e.accepted_requests + 1;
      },
    )
    else (
      false,
      record e {
        risk_manager = rollback m q;
        outgoing_requests = pushed.1;
        rejected_requests = e.rejected_requests + 1;
      },
    )

abbrev pub refuse : TradeEngine → Bool × TradeEngine
refuse e = (false, record e { rejected_requests = e.rejected_requests + 1 })

-- `sendClientRequest`
unfoldable pub send_client_request : TradeEngine → ClientRequest → Bool × TradeEngine
send_client_request e q =
    if is_closed e q
    then refuse e
    else (let reserved = reserve e.risk_manager q in
        if not (is_allowed reserved.0)
        then refuse (record e { risk_manager = reserved.1 })
        else hand_over e q reserved.1)

-- `quiesce` asks for the cancellations after this.
abbrev pub stop_admitting : TradeEngine → TradeEngine
stop_admitting e = record e { admitting = false }

-- The account no longer agrees with the exchange.
abbrev pub unreconciled : TradeEngine → Bool × TradeEngine
unreconciled e = (false, record e { reconciled = false })

abbrev pub is_state : ClientResponseType → Bool
is_state ClientResponseType.state = true
is_state _ = false

-- The answer to a query tells the position that the exchange has.
abbrev pub check_state : TradeEngine → ClientResponse → Bool × TradeEngine
check_state e r =
    if is_state r.type
      && not (price_eq r.position (e.risk_manager.ticker_risk r.ticker_id).position)
    then unreconciled e
    else (true, e)

module _ (pnl : ℤ → ClientResponse → Bool × Bool) where
  -- `PositionKeeper::addFill`: position and volume.
  abbrev pub add_fill : TradeEngine → ClientResponse → TradeEngine
  add_fill e r =
      let i = e.risk_manager.ticker_risk r.ticker_id in
      let position = i.position +ℤ pos r.exec_qty *ℤ side_to_value r.side in
      let answers = pnl position r in
      let info : RiskInfo = record i {
        position = position;
        loss_too_large = answers.0;
        pnl_is_finite = answers.1;
      } in
      record e {
        risk_manager = record (e.risk_manager) {
          ticker_risk = update e.risk_manager.ticker_risk r.ticker_id info;
        };
        volume = update e.volume r.ticker_id ((e.volume r.ticker_id + r.exec_qty) % 2 ^ 64);
      }

  -- The end of `onOrderUpdate`, once the reservations have taken the response.
  abbrev pub settle : TradeEngine → ClientResponse → Bool × TradeEngine
  settle e r = check_state (if is_fill r.type then add_fill e r else e) r

  abbrev pub account : TradeEngine → ClientResponse → Bool × TradeEngine
  account e r =
      let answer = on_response e.risk_manager r in
      let after = record e { risk_manager = answer.1 } in
      if answer.0 then settle after r else unreconciled after

  -- `onOrderUpdate`: whether the strategy is told, and the engine.
  unfoldable pub on_order_update : TradeEngine → ClientResponse → Bool × TradeEngine
  on_order_update e r =
      if not (r.client_id == e.client_id) || leb max_tickers r.ticker_id
      then unreconciled e
      else if r.response_id == 0
      then (if is_fill r.type then unreconciled e else account e r)
      else if leb r.response_id e.last_response_id
      then (false, record e { duplicate_responses = e.duplicate_responses + 1 })
      else account (record e { last_response_id = r.response_id }) r

-- `RECOVERY_COMMIT` in `run`: the mark of the current generation only.
abbrev pub apply_commit : TradeEngine → MarketUpdate → TradeEngine
apply_commit e u =
    if u.priority == e.market_generation then record e { applied_generation = u.priority } else e

-- A change that the book refuses makes the market stale.
abbrev pub refuse_update : TradeEngine → TradeEngine
refuse_update e = record e { market_generation = (e.market_generation + 1) % 2 ^ 64 }
