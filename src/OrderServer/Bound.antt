-- ===== src/OrderServer/Bound.antt =====
-- Clients and connections of the order server that name each other, and the checks that keep them so.
use trade_system.Common.{
  ℕ, ◌<◌, ◌≡◌, ◌≢◌, ◌∙◌, refl, ap, sym, subst, ◌==◌, ◌&&◌, not, leb, true, false, Option, none,
  some, arith, Bool-cases, inl, inr, if_both, update, update_self,
}
use trade_system.Messages.{SequencedRequest, RejectReason}
use trade_system.Wire.Validate.{is_query}
use trade_system.OrderServer.{
  OrderServer, is_none, is_other, is_set, check_owner, check_client, may_take_over, take_over,
  with_session, session_reason,
}

-- The connection of a client names that client back, and its session has a number.
abbrev pub IsBound : OrderServer → Type 0
IsBound s =
    (c k : ℕ)
    → s.cid_tcp_socket c ≡ some k
    → (s.socket_client k ≡ some c) × (s.cid_session_epoch c ≢ 0)

-- So no connection has two clients.
pub IsBound-unique :
    (s : OrderServer) (c d k : ℕ)
    → IsBound s
    → s.cid_tcp_socket c ≡ some k
    → s.cid_tcp_socket d ≡ some k
    → c ≡ d
IsBound-unique s c d k b e f = let x = (b c k e).0 in let y = (b d k f).0 in cc

-- What a frame must be for its request to be let through, in the state after the checks.
pub record IsReady (s : OrderServer) (k : ℕ) (q : SequencedRequest) : Type 0 where
  pub known : q.request.client_id < 256
  pub mine : is_other q.request.client_id (s.socket_client k) ≡ false
  pub owner : is_other k (s.cid_tcp_socket q.request.client_id) ≡ false
  pub epoch :
      is_set (s.cid_tcp_socket q.request.client_id) ≡ true
      → q.session_epoch ≡ s.cid_session_epoch q.request.client_id
  pub some_epoch : q.session_epoch ≢ 0
  pub in_order : q.seq_num ≡ s.cid_next_exp_seq_num q.request.client_id
  pub certain : s.cid_session_unknown q.request.client_id ≡ true → is_query q.request.type ≡ true

-- A reason, or a frame that is ready.
abbrev pub Cleared : ℕ → SequencedRequest → RejectReason × OrderServer → Type 0
Cleared k q x = is_none x.0 ≡ true → IsReady x.1 k q

with_session-Cleared :
    (s : OrderServer) (k : ℕ) (q : SequencedRequest)
    → q.request.client_id < 256
    → is_other q.request.client_id (s.socket_client k) ≡ false
    → is_other k (s.cid_tcp_socket q.request.client_id) ≡ false
    → Cleared k q (session_reason s q, s)
with_session-Cleared s k q a b c =
    let i = q.request.client_id in
    elim (Bool-cases
      (is_set (s.cid_tcp_socket i) && not (q.session_epoch == s.cid_session_epoch i))) [
        | inl e ↦ rw (e) (λ h. cc)
        | inr e ↦ elim (Bool-cases (q.session_epoch == 0)) [
          | inl f ↦ rw (e, f) (λ h. cc)
          | inr f ↦ elim (Bool-cases (not (q.seq_num == s.cid_next_exp_seq_num i))) [
            | inl g ↦ rw (e, f, g) (λ h. cc)
            | inr g ↦ elim (Bool-cases (s.cid_session_unknown i && not (is_query q.request.type))) [
              | inl u ↦ rw (e, f, g, u) (λ h. cc)
              | inr u ↦ λ h. record {
                known = a;
                mine = b;
                owner = c;
                epoch = λ x. ground (arith, e, x);
                some_epoch = λ x. ground (arith, f, x);
                in_order = ground (arith, g);
                certain = λ x. ground (arith, u, x);
              }
            ]
          ]
        ]
      ]

check_owner-Cleared :
    (s : OrderServer) (k : ℕ) (q : SequencedRequest) (o : Option ℕ)
    → s.cid_tcp_socket q.request.client_id ≡ o
    → q.request.client_id < 256
    → is_other q.request.client_id (s.socket_client k) ≡ false
    → Cleared k q (with_session q (check_owner s k q o))
check_owner-Cleared s k q none e a b = with_session-Cleared s k q a b (ap (is_other k) e)
check_owner-Cleared s k q (some owner) e a b = elim (Bool-cases (owner == k)) [
  | inl f ↦ rw (f) (with_session-Cleared s k q a b (ap (is_other k) e ∙ ground (arith, f)))
  | inr f ↦ elim (Bool-cases (may_take_over s owner q)) [
    | inl g ↦
        let c = q.request.client_id in
        let here : is_other c (update s.socket_client k (some c) k) ≡ false =
          ap (is_other c) (update_self s.socket_client k (some c)) ∙ ground arith in
        let there : is_other k (update s.cid_tcp_socket c (some k) c) ≡ false =
          ap (is_other k) (update_self s.cid_tcp_socket c (some k)) ∙ ground arith in
        rw (f, g) (with_session-Cleared (take_over s k q) k q a here there)
    | inr g ↦ rw (f, g) (λ h. cc)
  ]
]

pub check_client-Cleared :
    (s : OrderServer) (k : ℕ) (q : SequencedRequest) → Cleared k q (check_client s k q)
unfolding check_client
check_client-Cleared s k q =
    let c = q.request.client_id in
    elim (Bool-cases (leb 256 c)) [
      | inl e ↦ rw (e) (λ h. cc)
      | inr e ↦ elim (Bool-cases (is_other c (s.socket_client k))) [
        | inl f ↦ rw (e, f) (λ h. cc)
        | inr f ↦
            rw (e, f) (check_owner-Cleared s k q (s.cid_tcp_socket c) refl (ground (arith, e)) f)
      ]
    ]

-- To bind a connection that no other client has keeps the rest.
pub update-IsBound :
    (s s' : OrderServer) (c k : ℕ)
    → IsBound s
    → is_other c (s.socket_client k) ≡ false
    → s'.cid_tcp_socket ≡ update s.cid_tcp_socket c (some k)
    → s'.socket_client ≡ update s.socket_client k (some c)
    → ((d : ℕ) → c ≢ d → s'.cid_session_epoch d ≡ s.cid_session_epoch d)
    → s'.cid_session_epoch c ≢ 0
    → IsBound s'
update-IsBound s s' c k b free tcp client epochs epoch d j e =
    let was : update s.cid_tcp_socket c (some k) d ≡ some j = ap (λ f. f d) (sym tcp) ∙ e in
    elim (Bool-cases (c == d)) [
      | inl f ↦
          let same : c ≡ d = ground (arith, f) in
          let at_k : k ≡ j = ground (arith, was, f) in
          (
            ap (λ f. f j) client ∙ ground (arith, at_k, same),
            subst (λ x. s'.cid_session_epoch x ≢ 0) same epoch,
          )
      | inr f ↦
          let old = b d j (ground (arith, was, f)) in
          let apart : c ≢ d = λ x. ground (arith, f, x) in
          (ap (λ f. f j) client ∙ kept d j old.0 apart, λ z. old.1 (sym (epochs d apart) ∙ z))
    ]
  where
    kept :
        (d j : ℕ)
        → s.socket_client j ≡ some d
        → c ≢ d
        → update s.socket_client k (some c) j ≡ some d
    kept d j e apart = elim (Bool-cases (k == j)) [
      | inl g ↦
          let here : k ≡ j = ground (arith, g) in
          let not_other = ap (is_other c) (sym (ap s.socket_client here ∙ e)) ∙ free in
          absurd (apart (ground (arith, not_other)))
      | inr g ↦ rw (g) e
    ]

abbrev BoundAfter : RejectReason × OrderServer → Type 0
BoundAfter x = IsBound x.1

check_owner-IsBound :
    (s : OrderServer) (k : ℕ) (q : SequencedRequest) (o : Option ℕ)
    → s.cid_tcp_socket q.request.client_id ≡ o
    → is_other q.request.client_id (s.socket_client k) ≡ false
    → IsBound s
    → IsBound (check_owner s k q o).1
check_owner-IsBound s k q none e f b = b
check_owner-IsBound s k q (some owner) e f b = if_both BoundAfter (owner == k) b (
    if_both BoundAfter (may_take_over s owner q)
      (update-IsBound s (take_over s k q) q.request.client_id k b f refl refl (λ d n. refl)
        (b q.request.client_id owner e).1)
      b)

pub check_client-IsBound :
    (s : OrderServer) (k : ℕ) (q : SequencedRequest) → IsBound s → IsBound (check_client s k q).1
unfolding check_client
check_client-IsBound s k q b =
    let c = q.request.client_id in
    elim (Bool-cases (leb 256 c)) [
      | inl e ↦ rw (e) b
      | inr e ↦ elim (Bool-cases (is_other c (s.socket_client k))) [
        | inl f ↦ rw (e, f) b
        | inr f ↦
            rw (e, f)
              (same_server (check_owner s k q (s.cid_tcp_socket c))
                (check_owner-IsBound s k q (s.cid_tcp_socket c) refl f b))
      ]
    ]
  where
    same_server : (x : RejectReason × OrderServer) → IsBound x.1 → IsBound (with_session q x).1
    same_server (r, t) h = if_both BoundAfter (is_none r) h h
