-- ===== src/TradeEngine/Admission.antt =====
-- What `sendClientRequest` lets out, and that it leaves no trace of what it keeps back.
use trade_system.Common.{
  ◌≡◌, ◌∙◌, refl, ap, sym, subst, ltb, if◌then◌else◌, Bool, true, false, [], ◌∷◌, ◌++◌, length,
  Bool-cases, inl, inr,
}
use trade_system.Common.{◌≢◌, some, arith}
use trade_system.Messages.{ClientRequest, RejectReason}
use trade_system.Wire.Validate.{validate, is_new}
use trade_system.LfQueue.Refine.{IsValid, contents, try_push_lem}
use trade_system.Risk.{RiskManager, is_allowed, reserve, rollback}
use trade_system.Risk
use trade_system.Risk.Pending.{IsBalanced}
use trade_system.Risk.Limits.{IsSmall, WithinLimits}
use trade_system.Risk.Undo.{Agree, Allowed, reserve-Allowed}
use trade_system.TradeEngine.{
  TradeEngine, is_closed, is_valid, is_broken, hand_over, send_client_request,
}

-- What a request needs to go out: the engine still admits, if it is a new order, and has the market
-- data of the current generation; the request is valid and of this client; and neither the account nor
-- the session is in doubt.
pub record Open (e : TradeEngine) (q : ClientRequest) : Type 0 where
  pub admitting : is_new q.type ≡ true → e.admitting ≡ true
  pub valid : validate q ≡ RejectReason.none_
  pub client : q.client_id ≡ e.client_id
  pub reconciled : e.reconciled ≡ true
  pub session : e.order_session ≢ some false
  pub market : is_new q.type ≡ true → e.applied_generation ≡ e.market_generation

is_valid→none : (r : RejectReason) → is_valid r ≡ true → r ≡ RejectReason.none_
is_valid→none RejectReason.none_ h = refl
is_valid→none RejectReason.invalid_id h = cc
is_valid→none RejectReason.invalid_type h = cc
is_valid→none RejectReason.invalid_side h = cc
is_valid→none RejectReason.invalid_price h = cc
is_valid→none RejectReason.invalid_qty h = cc
is_valid→none RejectReason.duplicate_id h = cc
is_valid→none RejectReason.capacity h = cc
is_valid→none RejectReason.identity h = cc
is_valid→none RejectReason.sequence h = cc
is_valid→none RejectReason.session h = cc
is_valid→none RejectReason.version h = cc
is_valid→none (RejectReason.other b) h = cc

closed→Open : (e : TradeEngine) (q : ClientRequest) → is_closed e q ≡ false → Open e q
closed→Open e q h = record {
  admitting = λ n. ground (arith, h, n);
  valid = is_valid→none (validate q) (ground (arith, h));
  client = ground (arith, h);
  reconciled = ground (arith, h);
  session = λ s.
      let broken : is_broken e.order_session ≡ true = ap is_broken s in ground (arith, h, broken);
  market = λ n. ground (arith, h, n);
}

-- A request that went out: nothing forbade it, it stands last in the gateway's queue, and a new
-- order leaves its ticker within the limits.
pub record Out (e : TradeEngine) (q : ClientRequest) (f : TradeEngine) : Type 0 where
  pub is_free : Open e q
  pub queue : contents f.outgoing_requests ≡ contents e.outgoing_requests ++ q ∷ []
  pub within : Risk.is_new q.type ≡ true → WithinLimits f.risk_manager q.ticker_id

-- A request that was kept back: the queue, the reservations and the pending quantities are as they
-- were.
pub record Back (e f : TradeEngine) : Type 0 where
  pub queue : contents f.outgoing_requests ≡ contents e.outgoing_requests
  pub agree : Agree e.risk_manager f.risk_manager

abbrev pub Answer : TradeEngine → ClientRequest → Bool × TradeEngine → Type 0
Answer e q (true, f) = Out e q f
Answer e q (false, f) = Back e f

Agree-refl : (m : RiskManager) → Agree m m
Agree-refl m = record { reservations = refl; buys = λ t. refl; sells = λ t. refl }

hand_over-Answer :
    (e : TradeEngine) (q : ClientRequest) (m : RiskManager)
    → IsValid e.outgoing_requests
    → is_closed e q ≡ false
    → Allowed e.risk_manager q m
    → Answer e q (hand_over e q m)
hand_over-Answer e q m v o a =
    let (valid, answer, queue) = try_push_lem e.outgoing_requests q v in
    elim (Bool-cases (ltb (length (contents e.outgoing_requests)) e.outgoing_requests.capacity)) [
      | inl r ↦ rw (answer ∙ r) (record {
        is_free = closed→Open e q o;
        queue =
            queue
            ∙ ap
                (λ b.
                  if b
                  then contents e.outgoing_requests ++ q ∷ []
                  else contents e.outgoing_requests)
                r;
        within = a.within;
      })
      | inr r ↦ rw (answer ∙ r) (record {
        queue =
            queue
            ∙ ap
                (λ b.
                  if b
                  then contents e.outgoing_requests ++ q ∷ []
                  else contents e.outgoing_requests)
                r;
        agree = a.undone;
      })
    ]

-- `sendClientRequest`, on a valid queue, with pending quantities that are the sums of the reservations
-- and that with this request stay below 2^63: a request that it
-- accepts is valid, of this client, not in doubt by account or session, and as a new order meets an
-- engine that still admits and has current market data; it stands last in the gateway's queue, and as a new order
-- leaves its ticker within the limits even if all that is pending trades; and after a request that
-- it refuses, for whatever reason, the queue, the reservations and the pending quantities are as
-- before.
pub send_client_request-Answer :
    (e : TradeEngine) (q : ClientRequest)
    → IsValid e.outgoing_requests
    → IsSmall e.risk_manager q
    → IsBalanced e.risk_manager
    → Answer e q (send_client_request e q)
unfolding send_client_request
send_client_request-Answer e q v s b =
    let (taken, kept) = reserve-Allowed e.risk_manager q s b in
    elim (Bool-cases (is_closed e q)) [
      | inl c ↦ rw (c) (record { queue = refl; agree = Agree-refl e.risk_manager })
      | inr c ↦ elim (Bool-cases (is_allowed (reserve e.risk_manager q).0)) [
        | inl a ↦ rw (c, a) (hand_over-Answer e q (reserve e.risk_manager q).1 v c (taken a))
        | inr a ↦
            rw (c, a)
              (record {
                queue = refl;
                agree =
                    subst (λ n. Agree e.risk_manager n) (sym (kept a)) (Agree-refl e.risk_manager);
              })
      ]
    ]
