-- ===== src/Protocol/Address/RoundTrip.antt =====
-- protocol/codec.rs: an address is read back as it was written.
use raknet.Base.{
  ℕ, ◌^◌, ◌<◌, ◌≡◌, List, [], ◌++◌, length, ok, arith, refl, append_assoc, subst, length-append,
}
use raknet.Protocol.Buffer.{Buffer, be_bytes}
use raknet.Protocol.Reads.{has_remaining, get_u8-put, get_u16-put, copy_to_slice-append}
use raknet.Protocol.Address.{SocketAddr, v4, v6, not8, read_address, write_address}

abbrev pub IsAddress : SocketAddr → Type 0
IsAddress (v4 a b c d port) = (a < 256) × (b < 256) × (c < 256) × (d < 256) × (port < 2 ^ 16)
IsAddress (v6 ip port flowinfo scope_id) = (length ip ≡ 16) × (port < 2 ^ 16)

-- What of an address goes over the wire: not the flow information and the scope of a V6 address.
unfoldable pub carried_address : SocketAddr → SocketAddr
carried_address (v4 a b c d port) = v4 a b c d port
carried_address (v6 ip port flowinfo scope_id) = v6 ip port 0 0

unfoldable pub address_wire : SocketAddr → List ℕ
address_wire (v4 a b c d port) =
    be_bytes 1 4
    ++ (be_bytes 1 (not8 a)
        ++ (be_bytes 1 (not8 b)
            ++ (be_bytes 1 (not8 c) ++ (be_bytes 1 (not8 d) ++ be_bytes 2 port))))
address_wire (v6 ip port flowinfo scope_id) = be_bytes 1 6 ++ (ip ++ be_bytes 2 port)

pub write_address-wire :
    (lib : Buffer) (buf : List ℕ) (addr : SocketAddr)
    → write_address lib buf addr ≡ buf ++ address_wire addr
unfolding write_address address_wire
write_address-wire lib buf (v4 a b c d port) = simp (lib.put_u8_lem, lib.put_u16_lem, append_assoc)
write_address-wire lib buf (v6 ip port flowinfo scope_id) =
    simp (lib.put_u8_lem, lib.put_u16_lem, lib.put_slice_lem, append_assoc)

not8-not8 : (b : ℕ) → b < 256 → not8 (not8 b) ≡ b
not8-not8 b h = omega arith

read_v4-wire :
    (lib : Buffer) (a b c d port : ℕ) (rest : List ℕ)
    → IsAddress (v4 a b c d port)
    → read_address lib (address_wire (v4 a b c d port) ++ rest) ≡ ok (v4 a b c d port, rest)
unfolding read_address address_wire
read_v4-wire lib a b c d port rest h =
    let after4 = be_bytes 2 port ++ rest in
    let after3 = be_bytes 1 (not8 d) ++ after4 in
    let after2 = be_bytes 1 (not8 c) ++ after3 in
    let after1 = be_bytes 1 (not8 b) ++ after2 in
    let octets = be_bytes 1 (not8 a) ++ after1 in
    rw
      (
        get_u8-put lib 4 octets (omega arith),
        has_remaining lib 6 octets (omega arith),
        get_u8-put lib (not8 a) after1 (omega arith),
        get_u8-put lib (not8 b) after2 (omega arith),
        get_u8-put lib (not8 c) after3 (omega arith),
        get_u8-put lib (not8 d) after4 (omega arith),
        get_u16-put lib port rest h.4,
      )
      (rw (not8-not8 a h.0, not8-not8 b h.1, not8-not8 c h.2, not8-not8 d h.3) refl)

read_v6-wire :
    (lib : Buffer) (ip : List ℕ) (port flowinfo scope_id : ℕ) (rest : List ℕ)
    → IsAddress (v6 ip port flowinfo scope_id)
    → read_address lib (address_wire (v6 ip port flowinfo scope_id) ++ rest)
      ≡ ok (v6 ip port 0 0, rest)
unfolding read_address address_wire
read_v6-wire lib ip port flowinfo scope_id rest h =
    let after = be_bytes 2 port ++ rest in
    let copied : lib.copy_to_slice 16 (ip ++ after) ≡ ok (ip, after) =
      subst (λ n. lib.copy_to_slice n (ip ++ after) ≡ ok (ip, after)) h.0
        (copy_to_slice-append lib ip after) in
    rw (append_assoc ip (be_bytes 2 port) rest) (
      rw
        (
          get_u8-put lib 6 (ip ++ after) (omega arith),
          has_remaining lib 18 (ip ++ after) (omega (arith, h.0, length-append ip after)),
          copied,
          get_u16-put lib port rest h.1,
        )
        refl)

pub read_address-wire :
    (lib : Buffer) (addr : SocketAddr) (rest : List ℕ)
    → IsAddress addr
    → read_address lib (address_wire addr ++ rest) ≡ ok (carried_address addr, rest)
unfolding carried_address
read_address-wire lib (v4 a b c d port) rest h = read_v4-wire lib a b c d port rest h
read_address-wire lib (v6 ip port flowinfo scope_id) rest h =
    read_v6-wire lib ip port flowinfo scope_id rest h

-- An address at the front of a buffer is read back, but for the flow information and the scope of a
-- V6 address, which read as zero. Its octets and its port have their widths.
pub read_address-write_address :
    (lib : Buffer) (addr : SocketAddr) (rest : List ℕ)
    → IsAddress addr
    → read_address lib (write_address lib [] addr ++ rest) ≡ ok (carried_address addr, rest)
read_address-write_address lib addr rest h =
    rw (write_address-wire lib [] addr) (read_address-wire lib addr rest h)
