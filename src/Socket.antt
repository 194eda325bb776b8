-- ===== src/Socket.antt =====
-- socket.rs: the sockets of the listener and of its sessions, on Unix.
pub mod Options
mod Examples
use raknet.Base.{
  Bool, true, false, Option, none, some, Result, ok, err, ◌>>=◌, Error, socket_error, io,
}
use raknet.Protocol.Address.{SocketAddr, v4, v6}

-- The calls of the `socket2` crate on its type of sockets, and the one that makes a socket of tokio of it; a call that
-- fails gives none. A UDP socket is made for a family of addresses.
pub record Socket2 (S T : Type 0) : Type 0 where
  pub create : (ipv4 : Bool) → Option S
  pub set_reuse_port : S → Bool → Option S
  pub set_reuse_address : S → Bool → Option S
  pub set_nonblocking : S → Bool → Option S
  pub bind : S → SocketAddr → Option S
  pub connect : S → SocketAddr → Option S
  pub from_std : S → Option T

-- `map_err`
unfoldable pub map_err : {A : Type 0} → Error → Option A → Result A
map_err e none = err e
map_err e (some a) = ok a

unfoldable pub is_ipv4 : SocketAddr → Bool
is_ipv4 (v4 a b c d port) = true
is_ipv4 (v6 ip port flow scope) = false

module _ {S T : Type 0} (lib : Socket2 S T) where
  unfoldable pub create_listener_socket : SocketAddr → Result S
  create_listener_socket addr = do
    socket ← map_err (socket_error "Failed to create socket: {}") (lib.create (is_ipv4 addr))
    socket ←
        map_err (socket_error "Failed to set SO_REUSEPORT: {}") (lib.set_reuse_port socket true)
    socket ←
        map_err (socket_error "Failed to set SO_REUSEADDR: {}") (lib.set_reuse_address socket true)
    socket ←
        map_err (socket_error "Failed to set non-blocking: {}") (lib.set_nonblocking socket true)
    map_err (socket_error "Failed to bind to {}: {}") (lib.bind socket addr)

  unfoldable pub create_session_socket : SocketAddr → SocketAddr → Result S
  unfolding create_listener_socket
  create_session_socket listen_addr remote_addr = do
    socket ← create_listener_socket listen_addr
    map_err (socket_error "Failed to connect to {}: {}") (lib.connect socket remote_addr)

  unfoldable pub to_tokio_socket : S → Result T
  to_tokio_socket std_socket = map_err io (lib.from_std std_socket)

  unfoldable pub create_tokio_listener : SocketAddr → Result T
  unfolding create_listener_socket to_tokio_socket
  create_tokio_listener addr = do
    std_socket ← create_listener_socket addr
    to_tokio_socket std_socket

  unfoldable pub create_tokio_session : SocketAddr → SocketAddr → Result T
  unfolding create_session_socket to_tokio_socket
  create_tokio_session listen_addr remote_addr = do
    std_socket ← create_session_socket listen_addr remote_addr
    to_tokio_socket std_socket
