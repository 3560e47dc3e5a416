-- ===== src/Messages.antt =====
-- exchange/order_server/client_request.h, exchange/order_server/client_response.h and
-- exchange/market_data/market_update.h: the messages that the components exchange.
use trade_system.Common.{ℕ}
use trade_system.Common.Int.{ℤ}
use trade_system.Types.{Side}

-- The enumerations are bytes on the wire; `other` holds a byte that names no enumerator.
pub data ClientRequestType : Type 0 where
  invalid new cancel query : ClientRequestType
  other : ℕ → ClientRequestType

pub record ClientRequest : Type 0 where
  pub type : ClientRequestType
  pub client_id : ℕ
  pub ticker_id : ℕ
  pub order_id : ℕ
  pub side : Side
  pub price : ℤ
  pub qty : ℕ
  pub session_epoch : ℕ
  pub request_seq : ℕ

pub data ClientResponseType : Type 0 where
  invalid accepted canceled filled cancel_rejected rejected state : ClientResponseType
  other : ℕ → ClientResponseType

pub data RejectReason : Type 0 where
  none_ invalid_id invalid_type invalid_side invalid_price invalid_qty : RejectReason
  duplicate_id capacity identity sequence session version : RejectReason
  other : ℕ → RejectReason

pub record ClientResponse : Type 0 where
  pub type : ClientResponseType
  pub client_id : ℕ
  pub ticker_id : ℕ
  pub client_order_id : ℕ
  pub market_order_id : ℕ
  pub side : Side
  pub price : ℤ
  pub exec_qty : ℕ
  pub leaves_qty : ℕ
  pub reject_reason : RejectReason
  pub response_id : ℕ
  pub position : ℤ

pub data MarketUpdateType : Type 0 where
  invalid clear add modify cancel trade snapshot_start snapshot_end recovery_commit :
      MarketUpdateType
  other : ℕ → MarketUpdateType

pub record MarketUpdate : Type 0 where
  pub type : MarketUpdateType
  pub order_id : ℕ
  pub ticker_id : ℕ
  pub side : Side
  pub price : ℤ
  pub qty : ℕ
  pub priority : ℕ

-- `MDPMarketUpdate`: a market update with its sequence number and the data of a snapshot.
pub record SequencedUpdate : Type 0 where
  pub seq_num : ℕ
  pub update : MarketUpdate
  pub snapshot_cycle : ℕ
  pub watermark : ℕ
  pub state_hash : ℕ

-- `OMClientRequest` and `OMClientResponse`: what the two directions of a connection carry.
pub record SequencedRequest : Type 0 where
  pub seq_num : ℕ
  pub request : ClientRequest
  pub session_epoch : ℕ

pub record SequencedResponse : Type 0 where
  pub seq_num : ℕ
  pub response : ClientResponse
  pub session_epoch : ℕ
