-- ===== src/Socket/Options.antt =====
-- socket.rs: what the sockets that are made have set.
use raknet.Base.{ok, err, panic, ◌≡◌, Bool, true, false, Option, none, some, Result}
use raknet.Protocol.Address.{SocketAddr}
use raknet.Socket.{Socket2, is_ipv4}

-- What is set of a socket.
pub record Settings : Type 0 where
  pub ipv4 : Bool
  pub reuse_port : Bool
  pub reuse_address : Bool
  pub nonblocking : Bool
  pub local : Option SocketAddr
  pub peer : Option SocketAddr

-- The documented effect of a call that succeeds: it sets one thing and keeps the others.
pub record Documented {S T : Type 0} (lib : Socket2 S T) : Type 0 where
  pub settings : S → Settings
  pub tokio_settings : T → Settings
  pub created :
      (family : Bool) (s : S)
      → lib.create family ≡ some s
      → settings s ≡ record {
        ipv4 = family;
        reuse_port = false;
        reuse_address = false;
        nonblocking = false;
        local = none;
        peer = none;
      }
  pub sets_reuse_port :
      (s t : S) (on : Bool)
      → lib.set_reuse_port s on ≡ some t
      → settings t ≡ record (settings s) { reuse_port = on }
  pub sets_reuse_address :
      (s t : S) (on : Bool)
      → lib.set_reuse_address s on ≡ some t
      → settings t ≡ record (settings s) { reuse_address = on }
  pub sets_nonblocking :
      (s t : S) (on : Bool)
      → lib.set_nonblocking s on ≡ some t
      → settings t ≡ record (settings s) { nonblocking = on }
  pub binds :
      (s t : S) (addr : SocketAddr)
      → lib.bind s addr ≡ some t
      → settings t ≡ record (settings s) { local = some addr }
  pub connects :
      (s t : S) (addr : SocketAddr)
      → lib.connect s addr ≡ some t
      → settings t ≡ record (settings s) { peer = some addr }
  pub keeps : (s : S) (t : T) → lib.from_std s ≡ some t → tokio_settings t ≡ settings s

-- The settings of a socket that listens, and of one for a session.
abbrev pub listening : SocketAddr → Settings
listening addr = record {
  ipv4 = is_ipv4 addr;
  reuse_port = true;
  reuse_address = true;
  nonblocking = true;
  local = some addr;
  peer = none;
}

-- A chain of calls, which ends at the first one that fails.
abbrev pub and_then : {A B : Type 0} → Option A → (A → Option B) → Option B
and_then none f = none
and_then (some a) f = f a

-- A result holds what such a chain gives, and is an error, never a panic, where one of its calls fails.
abbrev pub Reports : {A : Type 0} → Option A → Result A → Type 0
Reports calls (ok a) = calls ≡ some a
Reports calls (err e) = calls ≡ none
Reports calls panic = ⊥

module _ {A : Type 0} where
  -- What holds of the socket that a chain of calls gives.
  abbrev pub Gives : (A → Type 0) → Option A → Type 0
  Gives P none = Unit {0}
  Gives P (some a) = P a

module _ {S T : Type 0} (lib : Socket2 S T) where
  -- The calls for the socket of a listener and for that of a session, in their order.
  abbrev pub std_listener : SocketAddr → Option S
  std_listener addr = and_then (lib.create (is_ipv4 addr)) (λ s.
      and_then (lib.set_reuse_port s true) (λ t.
        and_then (lib.set_reuse_address t true)
          (λ u. and_then (lib.set_nonblocking u true) (λ v. lib.bind v addr))))

  abbrev pub std_session : SocketAddr → SocketAddr → Option S
  std_session listen_addr remote_addr =
      and_then (std_listener listen_addr) (λ s. lib.connect s remote_addr)

  abbrev pub tokio : Option S → Option T
  tokio o = and_then o lib.from_std

module _ {S T : Type 0} (lib : Socket2 S T) (doc : Documented lib) where
  abbrev pub HasSettings : Settings → T → Type 0
  HasSettings settings t = doc.tokio_settings t ≡ settings
