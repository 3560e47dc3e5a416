-- ===== src/OrderServer/Receiving.antt =====
-- A socket of the server with the server's own callback.
use trade_system.Common.{
  ℕ, ◌≡◌, ◌∙◌, ap, ◌*◌, true, length, length-drop, update_self, arith, Returns, Returns-bind,
}
use trade_system.Tcp.{TcpSocket, healthy}
use trade_system.Tcp.Receiving.{IsBounded}
use trade_system.OrderServer.{OrderServer, recv_callback, on_socket, set_socket}
use trade_system.OrderServer.Returning.{Received}
use trade_system.OrderServer.Binding.{recv_callback-IsBound}
use trade_system.OrderServer.Bound.{IsBound}

-- `recvCallback` leaves no more bytes than there were.
pub on_socket-IsBounded :
    (k : ℕ) (s : OrderServer) (t : TcpSocket) (now : ℕ)
    → healthy t ≡ true
    → IsBound s
    → IsBounded t
    → Returns (λ (x : OrderServer × TcpSocket). IsBound x.0 × IsBounded x.1) (on_socket k s t now)
on_socket-IsBounded k s t now o b f =
    let u = set_socket s k t in
    let here : u.sockets k ≡ t = update_self s.sockets k t in
    Returns-bind (λ x. Received k u x × IsBound x)
      (λ (x : OrderServer × TcpSocket). IsBound x.0 × IsBounded x.1) (recv_callback u k now) _
      (recv_callback-IsBound u k now (ap healthy here ∙ o) b)
      (λ x h. (
        h.1,
        omega (
          arith,
          ap length h.0.left,
          length-drop (h.0.taken * 50) (u.sockets k).inbound_data,
          ap (λ (v : TcpSocket). length v.inbound_data) here,
          ap (λ (v : TcpSocket). v.capacity) here,
          h.0.same_capacity,
          f,
        ),
      ))
