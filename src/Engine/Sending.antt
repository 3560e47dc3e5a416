-- ===== src/Engine/Sending.antt =====
-- What the engine sends: the order of the messages, the numbers of the responses, the positions.
use trade_system.Common.{
  ℕ, ◌+◌, ◌%◌, ◌^◌, ◌≤◌, ◌==◌, ◌&&◌, Bool-cases, inl, inr, false, ◌≡◌, ◌∙◌, refl, ap, sym, subst,
  ltb, if◌then◌else◌, true, List, [], ◌∷◌, ◌++◌, arith, length, length-append, append_assoc,
  append-nil, done, suc,
}
use trade_system.Common.Int.{ℤ, pos, negsuc, ◌+ℤ◌, ◌*ℤ◌}
use trade_system.Types.{max_num_clients, max_tickers, side_to_value}
use trade_system.Messages.{ClientResponse, MarketUpdate}
use trade_system.LfQueue
use trade_system.LfQueue.{LfQueue}
use trade_system.LfQueue.Refine.{IsValid, contents, try_push_lem}
use trade_system.Matcher.Book.{Event, response, market}
use trade_system.Engine.{
  Engine, in_range, is_filled, positions_after, numbered, send_client_response, send_market_update,
  deliver,
}

abbrev pub responses_of : List Event → List ClientResponse
responses_of [] = []
responses_of (response r ∷ es) = r ∷ responses_of es
responses_of (market u ∷ es) = responses_of es

abbrev pub updates_of : List Event → List MarketUpdate
updates_of [] = []
updates_of (response r ∷ es) = updates_of es
updates_of (market u ∷ es) = u ∷ updates_of es

-- What a response moves the position of a client in a ticker by: a fill that is its own and in range
-- by the executed quantity, up for a purchase and down for a sale.
abbrev pub moved : ClientResponse → ℕ → ℕ → ℤ
moved r client ticker =
    if ltb client max_num_clients
      && ltb ticker max_tickers
      && is_filled r.type
      && r.client_id == client
      && r.ticker_id == ticker
    then pos r.exec_qty *ℤ side_to_value r.side
    else pos 0

-- The responses with the numbers from `id` on, each with the position that all fills up to it make.
abbrev pub numbered_from : ℕ → (ℕ → ℕ → ℤ) → List ClientResponse → List ClientResponse
numbered_from id positions [] = []
numbered_from id positions (r ∷ rs) =
    let after = λ (c t : ℕ). positions c t +ℤ moved r c t in
    record r {
      response_id = id;
      position = if in_range r then after r.client_id r.ticker_id else r.position;
    }
    ∷ numbered_from ((id + 1) % 2 ^ 64) after rs

-- The positions once all of the responses have been counted.
abbrev pub positions_of : (ℕ → ℕ → ℤ) → List ClientResponse → ℕ → ℕ → ℤ
positions_of positions [] = positions
positions_of positions (r ∷ rs) = positions_of (λ c t. positions c t +ℤ moved r c t) rs

+ℤ_zero : (a : ℤ) → a ≡ a +ℤ pos 0
unfolding ◌+ℤ◌
+ℤ_zero (pos n) = ground arith
+ℤ_zero (negsuc n) = ground arith

-- The position that a response is about, and any other.
own_position :
    (positions : ℕ → ℕ → ℤ) (r : ClientResponse)
    → positions_after positions r r.client_id r.ticker_id
      ≡ positions r.client_id r.ticker_id +ℤ moved r r.client_id r.ticker_id
unfolding positions_after
own_position positions r =
    let own : (r.client_id == r.client_id && r.ticker_id == r.ticker_id) ≡ true = ground arith in
    elim (Bool-cases (in_range r && is_filled r.type)) [
      | inl e ↦ rw (e, own) refl
      | inr e ↦ rw (e) (+ℤ_zero (positions r.client_id r.ticker_id))
    ]

other_position :
    (positions : ℕ → ℕ → ℤ) (r : ClientResponse) (c t : ℕ)
    → (r.client_id == c && r.ticker_id == t) ≡ false
    → positions_after positions r c t ≡ positions c t +ℤ moved r c t
unfolding positions_after
other_position positions r c t n =
    let m : (ltb c max_num_clients
          && ltb t max_tickers
          && is_filled r.type
          && r.client_id == c
          && r.ticker_id == t)
        ≡ false =
      ground (arith, n) in
    elim (Bool-cases (in_range r && is_filled r.type)) [
      | inl e ↦ rw (e, n, m) (+ℤ_zero (positions c t))
      | inr e ↦ rw (e, m) (+ℤ_zero (positions c t))
    ]

positions_after_at :
    (positions : ℕ → ℕ → ℤ) (r : ClientResponse) (c t : ℕ)
    → positions_after positions r c t ≡ positions c t +ℤ moved r c t
positions_after_at positions r c t = elim (Bool-cases (r.client_id == c && r.ticker_id == t)) [
  | inr n ↦ other_position positions r c t n
  | inl e ↦
      let same_client : r.client_id ≡ c = ground (arith, e) in
      let same_ticker : r.ticker_id ≡ t = ground (arith, e) in
      subst (λ d. positions_after positions r d t ≡ positions d t +ℤ moved r d t) same_client
        (subst
          (λ u.
            positions_after positions r r.client_id u
            ≡ positions r.client_id u +ℤ moved r r.client_id u)
          same_ticker (own_position positions r))
]

-- The code's way to keep the positions is to add up the moves.
positions_after_lem :
    (positions : ℕ → ℕ → ℤ) (r : ClientResponse)
    → positions_after positions r ≡ (λ c t. positions c t +ℤ moved r c t)
positions_after_lem positions r = λ k c t. positions_after_at positions r c t k

-- Both queues have room for what is to come.
pub record HasRoom (e : Engine) (es : List Event) : Type 0 where
  pub responses_valid : IsValid e.outgoing_ogw_responses
  pub updates_valid : IsValid e.outgoing_md_updates
  pub responses_room :
      length (contents e.outgoing_ogw_responses) + length (responses_of es)
      ≤ e.outgoing_ogw_responses.capacity
  pub updates_room :
      length (contents e.outgoing_md_updates) + length (updates_of es)
      ≤ e.outgoing_md_updates.capacity

pub record Delivered (e : Engine) (es : List Event) (e' : Engine) : Type 0 where
  pub responses_valid : IsValid e'.outgoing_ogw_responses
  pub updates_valid : IsValid e'.outgoing_md_updates
  pub responses :
      contents e'.outgoing_ogw_responses
      ≡ contents e.outgoing_ogw_responses
        ++ numbered_from e.next_response_id e.client_positions (responses_of es)
  pub updates : contents e'.outgoing_md_updates ≡ contents e.outgoing_md_updates ++ updates_of es
  pub positions : e'.client_positions ≡ positions_of e.client_positions (responses_of es)

try_push-capacity :
    {T : Type 0} (q : LfQueue T) (v : T) → (LfQueue.try_push q v).1.capacity ≡ q.capacity
unfolding LfQueue.try_push
try_push-capacity q v = ground arith

-- A push into a queue with room.
module _ {T : Type 0} (q : LfQueue T) (v : T) (h : IsValid q) where
  push_room :
      (n : ℕ)
      → length (contents q) + suc n ≤ q.capacity
      → ((LfQueue.try_push q v).0 ≡ true)
        × (contents (LfQueue.try_push q v).1 ≡ contents q ++ v ∷ [])
        × (length (contents (LfQueue.try_push q v).1) + n ≤ (LfQueue.try_push q v).1.capacity)
  push_room n k =
      let (valid, answer, after) = try_push_lem q v h in
      let room : ltb (length (contents q)) q.capacity ≡ true = ground (arith, k) in
      let list : contents (LfQueue.try_push q v).1 ≡ contents q ++ v ∷ [] =
        after ∙ ap (λ b. if b then contents q ++ v ∷ [] else contents q) room in
      (
        answer ∙ room,
        list,
        subst (λ c. length (contents (LfQueue.try_push q v).1) + n ≤ c)
            (sym (try_push-capacity q v))
            (omega (arith, ap (length {A = T}) list, length-append (contents q) (v ∷ []), k)),
      )

-- `deliver`, as long as both queues have room: nothing fails, every message goes to its queue in
-- the order of the calls, the responses are numbered in that order, and each tells the position
-- of its client after all fills up to and with it.
pub deliver_lem :
    (e : Engine) (es : List Event)
    → HasRoom e es
    → (e' : Engine) × (deliver e es ≡ done e') × Delivered e es e'
unfolding deliver send_client_response send_market_update numbered
deliver_lem e [] h = (
  e,
  refl,
  record {
    responses_valid = h.responses_valid;
    updates_valid = h.updates_valid;
    responses = sym (append-nil (contents e.outgoing_ogw_responses));
    updates = sym (append-nil (contents e.outgoing_md_updates));
    positions = refl;
  },
)
deliver_lem e (response r ∷ es) h =
    let q = e.outgoing_ogw_responses in
    let sent = numbered e r in
    let same = positions_after_lem e.client_positions r in
    let (ok, list, room) =
      push_room q sent h.responses_valid (length (responses_of es)) h.responses_room in
    let e₁ : Engine = record e {
      outgoing_ogw_responses = (LfQueue.try_push q sent).1;
      next_response_id = (e.next_response_id + 1) % 2 ^ 64;
      response_count = (e.response_count + 1) % 2 ^ 64;
      client_positions = positions_after e.client_positions r;
    } in
    let (e', ran, d) = deliver_lem e₁ es (record {
      responses_valid = (try_push_lem q sent h.responses_valid).0;
      updates_valid = h.updates_valid;
      responses_room = room;
      updates_room = h.updates_room;
    }) in
    (
      e',
      rw (ok) ran,
      record {
        responses_valid = d.responses_valid;
        updates_valid = d.updates_valid;
        responses =
            d.responses
            ∙ ap (λ l. l ++ numbered_from e₁.next_response_id e₁.client_positions (responses_of es))
                list
            ∙ append_assoc (contents q) (sent ∷ [])
                (numbered_from e₁.next_response_id e₁.client_positions (responses_of es))
            ∙ ap
                (λ (after : ℕ → ℕ → ℤ).
                  contents q
                  ++ record r {
                    response_id = e.next_response_id;
                    position = if in_range r then after r.client_id r.ticker_id else r.position;
                  }
                    ∷ numbered_from e₁.next_response_id after (responses_of es))
                same;
        updates = d.updates;
        positions = d.positions ∙ ap (λ p. positions_of p (responses_of es)) same;
      },
    )
deliver_lem e (market u ∷ es) h =
    let q = e.outgoing_md_updates in
    let (ok, list, room) = push_room q u h.updates_valid (length (updates_of es)) h.updates_room in
    let e₁ : Engine = record e { outgoing_md_updates = (LfQueue.try_push q u).1 } in
    let (e', ran, d) = deliver_lem e₁ es (record {
      responses_valid = h.responses_valid;
      updates_valid = (try_push_lem q u h.updates_valid).0;
      responses_room = h.responses_room;
      updates_room = room;
    }) in
    (
      e',
      rw (ok) ran,
      record {
        responses_valid = d.responses_valid;
        updates_valid = d.updates_valid;
        responses = d.responses;
        updates =
            d.updates
            ∙ ap (λ l. l ++ updates_of es) list
            ∙ append_assoc (contents q) (u ∷ []) (updates_of es);
        positions = d.positions;
      },
    )
