-- ===== src/Sniffer/Directions.antt =====
-- The two directions of a conversation (mq/amqpparser/main.go).
use gitbook_golang.Prelude.{◌≡◌, refl, sym, ◌∙◌, ◌≢◌, inl, inr, Option, none, some, Bool-cases}
use gitbook_golang.Amqp.Wire.{Bytes}
use gitbook_golang.Sniffer.{
  Packet, Sides, is_server_host, is_server_port, set_host, set_port, set_hosts, set_ports, sides,
}

-- The packet that goes back, with a payload of its own.
abbrev swapped : Option (Bytes × Bytes) → Option (Bytes × Bytes)
swapped none = none
swapped (some (src, dst)) = some (dst, src)

abbrev pub reply : Packet → Option Bytes → Packet
reply p payload = record { ipv4 = swapped p.ipv4; tcp = swapped p.tcp; payload = payload }

set_host-swapped :
    (src dst : Bytes) (s : Sides)
    → is_server_host src ≢ is_server_host dst
    → set_host dst src s ≡ set_host src dst s
unfolding set_host
set_host-swapped src dst s n = elim (Bool-cases (is_server_host src)) [
  | inl a ↦ elim (Bool-cases (is_server_host dst)) [
    | inl b ↦ absurd (n (a ∙ sym b))
    | inr b ↦ rw (a, b) refl
  ]
  | inr a ↦ elim (Bool-cases (is_server_host dst)) [
    | inl b ↦ rw (a, b) refl
    | inr b ↦ absurd (n (a ∙ sym b))
  ]
]

set_port-swapped :
    (src dst : Bytes) (s : Sides)
    → is_server_port src ≢ is_server_port dst
    → set_port dst src s ≡ set_port src dst s
unfolding set_port
set_port-swapped src dst s n = elim (Bool-cases (is_server_port src)) [
  | inl a ↦ elim (Bool-cases (is_server_port dst)) [
    | inl b ↦ absurd (n (a ∙ sym b))
    | inr b ↦ rw (a, b) refl
  ]
  | inr a ↦ elim (Bool-cases (is_server_port dst)) [
    | inl b ↦ rw (a, b) refl
    | inr b ↦ absurd (n (a ∙ sym b))
  ]
]

-- In a packet of which one side and not the other has the server's host, and one side and not the
-- other has the server's port: the packet that goes back, with whatever payload, has the same server
-- and the same client, so that both go to the same connection.
pub sides-reply :
    (p : Packet) (payload : Option Bytes) (src dst from to : Bytes)
    → p.ipv4 ≡ some (src, dst)
    → p.tcp ≡ some (from, to)
    → is_server_host src ≢ is_server_host dst
    → is_server_port from ≢ is_server_port to
    → sides (reply p payload) ≡ sides p
unfolding sides set_hosts set_ports
sides-reply p payload src dst from to e f m n =
    rw (e, f, set_host-swapped src dst _ m, set_port-swapped from to _ n) refl
