-- ===== src/TradeEngine/Responses.antt =====
-- What a response does to the account, the first time and when it comes again.
use trade_system.Common.{◌≡◌, ◌==◌, ◌||◌, not, leb, Bool, true, false}
use trade_system.Common.Int.{ℤ}
use trade_system.Messages.{ClientResponse}
use trade_system.Risk.Pending.{IsBalanced}
use trade_system.TradeEngine.{TradeEngine}

module _ (pnl : ℤ → ClientResponse → Bool × Bool) where
  -- What a response keeps: the number of the last response, and once the account is in doubt it stays so.
  record Kept (e : TradeEngine) (x : Bool × TradeEngine) : Type 0 where
    last : x.1.last_response_id ≡ e.last_response_id
    client : x.1.client_id ≡ e.client_id
    balanced : IsBalanced e.risk_manager → IsBalanced x.1.risk_manager
    in_doubt : e.reconciled ≡ false → x.1.reconciled ≡ false

  -- What any response does: the pending quantities stay the sums of the reservations, an account in
  -- doubt stays in doubt, and a numbered response of this client is not newer than the last one any
  -- more.
  record After (e : TradeEngine) (r : ClientResponse) (x : Bool × TradeEngine) : Type 0 where
    client : x.1.client_id ≡ e.client_id
    balanced : IsBalanced e.risk_manager → IsBalanced x.1.risk_manager
    in_doubt : e.reconciled ≡ false → x.1.reconciled ≡ false
    seen :
        (not (r.client_id == e.client_id) || leb 8 r.ticker_id) ≡ false
        → (r.response_id == 0) ≡ false
        → leb r.response_id x.1.last_response_id ≡ true
