-- ===== src/OrderGateway/Receiving.antt =====
-- The sockets of the gateway and of the server, each with its own callback.
use trade_system.Common.{true, ℕ, ◌≤◌, ◌≡◌, arith, List, length, Returns, Returns-bind}
use trade_system.LfQueue.Refine.{IsValid}
use trade_system.Tcp.{TcpSocket, SendAnswer, ReceiveAnswer, healthy, send_and_recv}
use trade_system.Tcp.Sending.{IsWithin, IsKernel}
use trade_system.Tcp.Receiving.{IsBounded, send_and_recv-Good}
use trade_system.OrderServer
use trade_system.OrderServer.{OrderServer}
use trade_system.OrderServer.Bound.{IsBound}
use trade_system.OrderServer.Receiving
use trade_system.OrderGateway.{OrderGateway, recv_callback, on_socket}
use trade_system.OrderGateway.Delivery.{Received, recv_callback-Received}

abbrev Sound : OrderGateway → Type 0
Sound g = IsValid g.incoming_responses

on_socket-IsBounded :
    (g : OrderGateway) (s : TcpSocket) (t : ℕ)
    → healthy s ≡ true
    → Sound g
    → IsBounded s
    → Returns (λ (x : OrderGateway × TcpSocket). Sound x.0 × IsBounded x.1) (on_socket g s t)
on_socket-IsBounded g s t o v b =
    Returns-bind (Received (record g { tcp_socket = s }))
      (λ (x : OrderGateway × TcpSocket). Sound x.0 × IsBounded x.1)
      (recv_callback (record g { tcp_socket = s }) t) _
      (recv_callback-Received (record g { tcp_socket = s }) t v)
      (λ h r. (r.valid, omega (arith, r.shorter, r.same_capacity, b)))

-- What `sendAndRecv` leaves at the gateway, and at the server.
abbrev pub GatewayKept : OrderGateway × TcpSocket × List ℕ → Type 0
GatewayKept x = IsValid x.0.incoming_responses × IsBounded x.1

abbrev pub ServerKept : OrderServer × TcpSocket × List ℕ → Type 0
ServerKept x = IsBound x.0 × IsBounded x.1

-- `sendAndRecv` at both ends of a connection, each with its own `recvCallback`, for a kernel that
-- takes and gives no more bytes than it is offered and buffers within their capacity. With a valid
-- queue of responses at the gateway, it returns there, the queue is still valid and the inbound
-- buffer within its capacity. With clients at the server whose connections name them back in a
-- session with a number, it returns there, this still holds and the inbound buffer is within its
-- capacity.
pub send_and_recv-IsBounded :
    (receive : ℕ → ℕ → ReceiveAnswer) (answer : ℕ → ℕ → SendAnswer) (g : OrderGateway)
    (s : OrderServer) (k : ℕ)
    → ((i n : ℕ) (bytes : List ℕ) (t : ℕ)
        → receive i n ≡ ReceiveAnswer.got bytes t
        → length bytes ≤ n)
    → IsKernel answer
    → IsValid g.incoming_responses
    → IsWithin g.tcp_socket
    → IsBounded g.tcp_socket
    → IsBound s
    → IsWithin (s.sockets k)
    → IsBounded (s.sockets k)
    → Returns GatewayKept (send_and_recv on_socket receive answer g g.tcp_socket)
      × Returns ServerKept (send_and_recv (OrderServer.on_socket k) receive answer s (s.sockets k))
send_and_recv-IsBounded receive answer g s k offers kernel v w b bound w' b' = (
  send_and_recv-Good Sound on_socket receive on_socket-IsBounded offers answer g g.tcp_socket kernel
      w v b,
  send_and_recv-Good IsBound (OrderServer.on_socket k) receive (Receiving.on_socket-IsBounded k)
      offers answer s (s.sockets k) kernel w' bound b',
)
