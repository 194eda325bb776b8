-- ===== src/Listener/Peers.antt =====
-- listener.rs: the addresses of the table.
use raknet.Base.{ℕ, ◌≡◌, true, false, List, [], ◌∷◌, Bool-cases, inl, inr, arith, refl, subst}
use raknet.Protocol.Address.{SocketAddr, v4, v6}
use raknet.Protocol.Magic.{same_bytes}
use raknet.Listener.{same_addr, contains_key, insert_key, remove}

same_bytes_sound : (xs ys : List ℕ) → same_bytes xs ys ≡ true → xs ≡ ys
same_bytes_sound [] [] e = refl
same_bytes_sound [] (y ∷ ys) e = absurd cc
same_bytes_sound (x ∷ xs) [] e = absurd cc
same_bytes_sound (x ∷ xs) (y ∷ ys) e =
    let first : x ≡ y = ground arith in let rest = same_bytes_sound xs ys (ground arith) in cc

same_addr_sound : (a b : SocketAddr) → same_addr a b ≡ true → a ≡ b
unfolding same_addr
same_addr_sound (v4 a b c d port) (v4 a' b' c' d' port') e =
    let ea : a ≡ a' = ground arith in
    let eb : b ≡ b' = ground arith in
    let ec : c ≡ c' = ground arith in
    let ed : d ≡ d' = ground arith in let ep : port ≡ port' = ground arith in cc
same_addr_sound (v4 a b c d port) (v6 ip' port' flow' scope') e = absurd cc
same_addr_sound (v6 ip port flow scope) (v4 a' b' c' d' port') e = absurd cc
same_addr_sound (v6 ip port flow scope) (v6 ip' port' flow' scope') e =
    let ei = same_bytes_sound ip ip' (ground arith) in
    let ep : port ≡ port' = ground arith in
    let ef : flow ≡ flow' = ground arith in let es : scope ≡ scope' = ground arith in cc

-- Forgetting another address keeps this one.
pub contains_key-remove_other :
    (addr other : SocketAddr) (known : List SocketAddr)
    → same_addr addr other ≡ false
    → contains_key addr known ≡ true
    → contains_key addr (remove other known) ≡ true
unfolding contains_key remove
contains_key-remove_other addr other [] ne e = e
contains_key-remove_other addr other (c ∷ known) ne e = elim (Bool-cases (same_addr other c)) [
  | inl same ↦
      let gone = same_addr_sound other c same in
      let far : same_addr addr c ≡ false = subst (λ x. same_addr addr x ≡ false) gone ne in
      rw same (ground (arith, far))
  | inr kept ↦ rw kept (ground (arith, contains_key-remove_other addr other known ne))
]

pub contains_key-insert_key :
    (addr other : SocketAddr) (known : List SocketAddr)
    → contains_key addr known ≡ true
    → contains_key addr (insert_key other known) ≡ true
unfolding contains_key insert_key
contains_key-insert_key addr other known e = elim (Bool-cases (contains_key other known)) [
  | inl there ↦ rw there e
  | inr new ↦ rw new (ground arith)
]

-- A peer that is outside the table is another one than a peer that is in it.
pub other_peer :
    (addr other : SocketAddr) (known : List SocketAddr)
    → contains_key addr known ≡ true
    → contains_key other known ≡ false
    → same_addr addr other ≡ false
other_peer addr other known e new = elim (Bool-cases (same_addr addr other)) [
  | inr far ↦ far
  | inl near ↦ absurd (cc (same_addr_sound addr other near))
]
