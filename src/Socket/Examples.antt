-- ===== src/Socket/Examples.antt =====
-- The sockets of a listener and of a session on a library whose calls succeed.
use raknet.Base.{err, socket_error, false, none, some, ok, refl, ◌≡◌}
use raknet.Protocol.Address.{SocketAddr, v4}
use raknet.Socket.{
  Socket2, create_listener_socket, create_session_socket, to_tokio_socket, create_tokio_session,
  map_err, is_ipv4,
}
use raknet.Socket.Options.{Settings, Documented, listening}

abbrev sockets : Socket2 Settings Settings
sockets = record {
  create = λ family. some (record {
    ipv4 = family;
    reuse_port = false;
    reuse_address = false;
    nonblocking = false;
    local = none;
    peer = none;
  });
  set_reuse_port = λ s on. some (record s { reuse_port = on });
  set_reuse_address = λ s on. some (record s { reuse_address = on });
  set_nonblocking = λ s on. some (record s { nonblocking = on });
  bind = λ s addr. some (record s { local = some addr });
  connect = λ s addr. some (record s { peer = some addr });
  from_std = λ s. some s;
}

abbrev sockets_documented : Documented sockets
sockets_documented = record {
  settings = λ s. s;
  tokio_settings = λ s. s;
  created = λ family s made. cc;
  sets_reuse_port = λ s t on made. cc;
  sets_reuse_address = λ s t on made. cc;
  sets_nonblocking = λ s t on made. cc;
  binds = λ s t addr made. cc;
  connects = λ s t addr made. cc;
  keeps = λ s t made. cc;
}

abbrev any : SocketAddr
any = v4 0 0 0 0 19132

abbrev peer : SocketAddr
peer = v4 192 168 0 7 50_000

session : create_tokio_session sockets any peer ≡ ok (record (listening any) { peer = some peer })
unfolding create_tokio_session create_session_socket create_listener_socket to_tokio_socket map_err
    is_ipv4
session = refl

-- A library whose sockets cannot be connected.
abbrev offline : Socket2 Settings Settings
offline = record sockets { connect = λ s addr. none }

no_session :
    create_tokio_session offline any peer ≡ err (socket_error "Failed to connect to {}: {}")
unfolding create_tokio_session create_session_socket create_listener_socket to_tokio_socket map_err
    is_ipv4
no_session = refl
