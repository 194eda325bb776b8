-- ===== src/Listener/Table.antt =====
-- listener.rs: the table of connections and the streams, whatever a handler does.
use raknet.Base.{
  ℕ, ◌≤◌, ◌≡◌, false, List, [], ◌∷◌, All, All-snoc, Result, ok, err, panic, arith, refl, inl, inr,
  ◌>>=◌, subst, Bool-cases,
}
use raknet.Protocol.Address.{SocketAddr}
use raknet.Protocol.Buffer.{Buffer}
use raknet.Protocol.Opening.{encode_open_connection_reply_2}
use raknet.Listener.Keeps.{dispatch-keeps}
use raknet.Listener.{
  Sockets, RakNetListener, listening, first_address, bind, same_addr, contains_key, insert_key,
  remove, send_to, clamp_mtu, open_session, dispatch,
}

-- No address stands in the table twice.
abbrev pub Distinct : List SocketAddr → Type 0
Distinct [] = Unit {0}
Distinct (addr ∷ rest) = (contains_key addr rest ≡ false) × Distinct rest

abbrev pub InBounds : SocketAddr × ℕ → Type 0
InBounds stream = (576 ≤ stream.1) × (stream.1 ≤ 1500)

pub record Tidy (l : RakNetListener) : Type 0 where
  pub distinct : Distinct l.connections
  pub bounded : All InBounds l.streams

contains_key-remove :
    (a b : SocketAddr) (known : List SocketAddr)
    → contains_key a known ≡ false
    → contains_key a (remove b known) ≡ false
unfolding contains_key remove
contains_key-remove a b [] h = refl
contains_key-remove a b (c ∷ known) h = ground (arith, contains_key-remove a b known)

insert_key-Distinct :
    (addr : SocketAddr) (known : List SocketAddr)
    → Distinct known
    → Distinct (insert_key addr known)
unfolding insert_key
insert_key-Distinct addr known d = elim (Bool-cases (contains_key addr known)) [
  | inl there ↦ rw there d
  | inr new ↦ rw new (new, d)
]

pub remove-Distinct :
    (addr : SocketAddr) (known : List SocketAddr) → Distinct known → Distinct (remove addr known)
unfolding remove
remove-Distinct addr [] d = tt
remove-Distinct addr (c ∷ known) d = elim (Bool-cases (same_addr addr c)) [
  | inl e ↦ rw e d.1
  | inr e ↦ rw e (contains_key-remove c addr known d.0, remove-Distinct addr known d.1)
]

new_listener :
    (to_string : ℕ → List ℕ) (created : Result SocketAddr) (millis : ℕ) (l : RakNetListener)
    → ((created >>= λ local_addr. ok (listening to_string local_addr millis)) ≡ ok l)
    → Tidy l
new_listener to_string (ok local_addr) millis l made =
    let same : listening to_string local_addr millis ≡ l = cc in
    subst Tidy same (record { distinct = tt; bounded = tt })
new_listener to_string (err e) millis l made = absurd cc
new_listener to_string panic millis l made = absurd cc

-- A listener that was just bound.
pub bind-Tidy :
    (to_string : ℕ → List ℕ) (addrs : Result (List SocketAddr))
    (create : SocketAddr → Result SocketAddr) (millis : ℕ) (l : RakNetListener)
    → bind to_string addrs create millis ≡ ok l
    → Tidy l
unfolding bind first_address
bind-Tidy to_string (ok (addr ∷ rest)) create millis l made =
    new_listener to_string (create addr) millis l made
bind-Tidy to_string (ok []) create millis l made = absurd cc
bind-Tidy to_string (err e) create millis l made = absurd cc
bind-Tidy to_string panic create millis l made = absurd cc

module _ (lib : Buffer) (net : Sockets) where
  pub send_to-Tidy :
      (l : RakNetListener) (addr : SocketAddr) (packet : List ℕ)
      → Tidy l
      → Tidy (send_to net l addr packet).1
  unfolding send_to
  send_to-Tidy l addr packet t = elim (Bool-cases (net.sends addr packet)) [
    | inl e ↦ rw e (record { distinct = t.distinct; bounded = t.bounded })
    | inr e ↦ rw e t
  ]

  pub open_session-Tidy :
      (l : RakNetListener) (addr : SocketAddr) (mtu : ℕ)
      → InBounds (addr, mtu)
      → Tidy l
      → Tidy (open_session lib net l addr mtu).1
  unfolding open_session
  open_session-Tidy l addr mtu bounds t = elim (Bool-cases (net.opens addr)) [
    | inr e ↦ rw e t
    | inl e ↦
        elim (Bool-cases
          (net.session_sends addr (encode_open_connection_reply_2 lib l.server_guid addr mtu))) [
            | inr f ↦ rw (e, f) t
            | inl f ↦
                rw (e, f)
                  (record {
                    distinct = insert_key-Distinct addr l.connections t.distinct;
                    bounded = All-snoc InBounds l.streams (addr, mtu) t.bounded bounds;
                  })
          ]
  ]

  pub dispatch-Tidy :
      (l : RakNetListener) (packet : List ℕ) (addr : SocketAddr)
      → Tidy l
      → Tidy (dispatch lib net l packet addr)
  dispatch-Tidy =
      dispatch-keeps lib net Tidy send_to-Tidy
        (λ l addr mtu new t. open_session-Tidy l addr (clamp_mtu mtu) (omega arith, omega arith) t)
