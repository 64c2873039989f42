-- ===== src/Sniffer/Streams.antt =====
-- The packets of any capture, and what reaches the connection of each client (mq/amqpparser/main.go).
use gitbook_golang.Prelude.{
  ◌≡◌, refl, sym, ap, subst, ◌∙◌, ◌⊎◌, inl, inr, Option, none, some, List, [], ◌∷◌, if◌then◌else◌,
  Bool-cases, bytes_eq, bytes_eq_refl, bytes_eq→eq,
}
use gitbook_golang.Amqp.Channel.{Step, went, crashed, stuck}
use gitbook_golang.Amqp.Channel.Total.{Runs, returns, panics}
use gitbook_golang.Amqp.Connection.{Endpoint, Connection, parse}
use gitbook_golang.Amqp.Parser.{
  Parser, or_connect, get_connection, keep, keep_result, parse_payload,
}
use gitbook_golang.Amqp.Parser.Ports.{
  or_new_connection, connection_of, or_connect-connection, parse_payload-connection,
}
use gitbook_golang.Amqp.Parser.Total.{IsCalm, parse_payload-Finishes}
use gitbook_golang.Amqp.Wire.{Bytes}
use gitbook_golang.Sniffer.{
  Packet, Sides, sides, parse_application, packet_info, and_packets, packets,
}

unfoldable pub and_payload :
    Bytes → Sides → Option Bytes → List (Sides × Bytes) → List (Sides × Bytes)
and_payload port s none rest = rest
and_payload port s (some b) rest = if bytes_eq s.client.port port then (s, b) ∷ rest else rest

-- The payloads of the packets that have the port as their client's, in the order of the packets.
unfoldable pub payloads_of : Bytes → List Packet → List (Sides × Bytes)
payloads_of port [] = []
payloads_of port (p ∷ ps) = and_payload port (sides p) p.payload (payloads_of port ps)

-- The connection that there is, or is not, before and after `Connection.Parse` on payloads, one after
-- another; the first one makes a connection to its server and its client where there is none.
pub data Follows : Option Connection → List (Sides × Bytes) → Option Connection → Type 0 where
  no_payloads : {o : Option Connection} → Follows o [] o
  next_payload :
      {o e : Option Connection} {s : Sides} {b : Bytes} {rest : List (Sides × Bytes)}
      (d : Connection)
      → parse (or_new_connection s.server s.client o) b ≡ some (went d)
      → Follows (some d) rest e
      → Follows o ((s, b) ∷ rest) e

-- `Connection.Parse` panics on one of the payloads.
pub data Breaks : Option Connection → List (Sides × Bytes) → Type 0 where
  breaks_here :
      {o : Option Connection} {s : Sides} {b : Bytes} {rest : List (Sides × Bytes)}
      → parse (or_new_connection s.server s.client o) b ≡ some crashed
      → Breaks o ((s, b) ∷ rest)
  breaks_later :
      {o : Option Connection} {s : Sides} {b : Bytes} {rest : List (Sides × Bytes)} (d : Connection)
      → parse (or_new_connection s.server s.client o) b ≡ some (went d)
      → Breaks (some d) rest
      → Breaks o ((s, b) ∷ rest)

keep_result-crashed :
    (port : Bytes) (p : Parser) (o : Option (Step Connection))
    → keep_result port p o ≡ some crashed
    → o ≡ some crashed
unfolding keep_result keep
keep_result-crashed port p (some (went d)) e = absurd cc
keep_result-crashed port p (some crashed) e = refl
keep_result-crashed port p (some stuck) e = absurd cc
keep_result-crashed port p none e = absurd cc

keep_result-went :
    (port : Bytes) (p q : Parser) (o : Option (Step Connection))
    → keep_result port p o ≡ some (went q)
    → (d : Connection) × (o ≡ some (went d))
unfolding keep_result keep
keep_result-went port p q (some (went d)) e = (d, refl)
keep_result-went port p q (some crashed) e = absurd cc
keep_result-went port p q (some stuck) e = absurd cc
keep_result-went port p q none e = absurd cc

-- A payload whose parsing has returned was parsed on the connection of its client's port.
parse_payload-went :
    (p q : Parser) (b : Bytes) (sep cep : Endpoint)
    → parse_payload p b sep cep ≡ some (went q)
    → (d : Connection) × (parse (connection_of p sep cep) b ≡ some (went d))
      × ((port : Bytes)
          → q.connections port ≡ (if bytes_eq cep.port port then some d else p.connections port))
unfolding parse_payload get_connection
parse_payload-went p q b sep cep e =
    let old = or_connect sep cep p (p.connections cep.port) in
    let (d, f) = keep_result-went cep.port old.1 q (parse old.0 b) e in
    let on : parse (connection_of p sep cep) b ≡ some (went d) =
      sym (ap (λ c. parse c b) (or_connect-connection p sep cep (p.connections cep.port))) ∙ f in
    let (r, g, ports) = parse_payload-connection p b sep cep d on in
    let same : r ≡ q = cc in
    (
      d,
      on,
      subst
          (λ t.
            (port : Bytes)
            → t.connections port ≡ (if bytes_eq cep.port port then some d else p.connections port))
          same ports,
    )

parse_payload-crashed :
    (p : Parser) (b : Bytes) (sep cep : Endpoint)
    → parse_payload p b sep cep ≡ some crashed
    → parse (connection_of p sep cep) b ≡ some crashed
unfolding parse_payload get_connection
parse_payload-crashed p b sep cep e =
    let old = or_connect sep cep p (p.connections cep.port) in
    sym (ap (λ c. parse c b) (or_connect-connection p sep cep (p.connections cep.port)))
    ∙ keep_result-crashed cep.port old.1 (parse old.0 b) e

-- What holds of the connection after a payload and the rest holds before it, on the payload's port as
-- `R` says, and on any other since the payload is not of that port.
before_payload :
    (R : Option Connection → List (Sides × Bytes) → Type 0) (p q : Parser) (s : Sides)
    (b port : Bytes) (rest : List (Sides × Bytes)) (d : Connection)
    → (parse (or_new_connection s.server s.client (p.connections port)) b ≡ some (went d)
        → R (some d) rest
        → R (p.connections port) ((s, b) ∷ rest))
    → parse (connection_of p s.server s.client) b ≡ some (went d)
    → q.connections port ≡ (if bytes_eq s.client.port port then some d else p.connections port)
    → R (q.connections port) rest
    → R (p.connections port) (and_payload port s (some b) rest)
unfolding and_payload
before_payload R p q s b port rest d one_more on same f =
    elim (Bool-cases (bytes_eq s.client.port port)) [
      | inl y ↦
          let mine : q.connections port ≡ some d = rw y at same in
          let here =
            subst
              (λ x. parse (or_new_connection s.server s.client (p.connections x)) b ≡ some (went d))
              (bytes_eq→eq s.client.port port y) on in
          rw y (one_more here (subst (λ x. R x rest) mine f))
      | inr n ↦
          let other : q.connections port ≡ p.connections port = rw n at same in
          rw n (subst (λ x. R x rest) other f)
    ]

-- What is left of the packets panics on a payload, or it returns, with `streams` parsed on the
-- connections.
abbrev Streams : Parser → (Bytes → List (Sides × Bytes)) → Option (Step Parser) → Type 0
Streams parser streams o =
    ((port : Bytes) × (o ≡ some crashed) × Breaks (parser.connections port) (streams port))
    ⊎ ((q : Parser) × (o ≡ some (went q))
        × IsCalm q
        × ((port : Bytes) → Follows (parser.connections port) (streams port) (q.connections port)))

after_payload :
    (parser : Parser) (s : Sides) (b : Bytes) (streams : Bytes → List (Sides × Bytes))
    (rest : Parser → Option (Step Parser)) (r : Step Parser)
    → parse_payload parser b s.server s.client ≡ some r
    → Runs IsCalm r
    → ((q : Parser) → IsCalm q → Streams q streams (rest q))
    → Streams parser
        (λ port. and_payload port s (some b) (streams port))
        (and_packets (some r) rest)
unfolding and_packets and_payload
after_payload parser s b streams rest (went q) e (returns k) ih =
    let (d, on, ports) = parse_payload-went parser q b s.server s.client e in
    elim (ih q k) [
      | inl (port, c, breaks) ↦ inl (
        port,
        c,
        before_payload Breaks parser q s b port (streams port) d (λ e r. breaks_later d e r) on
            (ports port) breaks,
      )
      | inr (t, a, calm, follows) ↦ inr (
        t,
        a,
        calm,
        λ port.
            before_payload (λ o xs. Follows o xs (t.connections port)) parser q s b port
              (streams port) d (λ e r. next_payload d e r) on (ports port) (follows port),
      )
    ]
after_payload parser s b streams rest crashed e panics ih =
    let here = parse_payload-crashed parser b s.server s.client e in
    inl (s.client.port, refl, rw (bytes_eq_refl s.client.port) (breaks_here here))
after_payload parser s b streams rest stuck e runs ih = elim runs [ ]

one_packet :
    (parser : Parser) (s : Sides) (payload : Option Bytes) (streams : Bytes → List (Sides × Bytes))
    (rest : Parser → Option (Step Parser))
    → IsCalm parser
    → ((q : Parser) → IsCalm q → Streams q streams (rest q))
    → Streams parser
        (λ port. and_payload port s payload (streams port))
        (and_packets (parse_application parser s payload) rest)
unfolding parse_application and_packets and_payload
one_packet parser s none streams rest h ih = ih parser h
one_packet parser s (some b) streams rest h ih =
    let (r, e, runs) = parse_payload-Finishes parser b s.server s.client h in
    rw e (after_payload parser s b streams rest r e runs ih)

-- On a parser whose connections have channels with open consumers that are not confirming, as the one
-- that the program makes, and whatever the packets are, the packets of each client's port are one
-- stream for the connection of that port: `Connection.Parse` gets the payloads of the packets that have the
-- port as their client's, in their order, and no others, the first of them on a new connection between
-- its server and its client if the port had none. The handling of the packets panics, and then
-- `Parse` panics in the stream of some port; or it returns, and then the parser is such again, and
-- the connection of each port is what its stream has made of it.
pub packets-Follows :
    (ps : List Packet) (parser : Parser)
    → IsCalm parser
    → ((port : Bytes) × (packets ps parser ≡ some crashed)
        × Breaks (parser.connections port) (payloads_of port ps))
      ⊎ ((q : Parser) × (packets ps parser ≡ some (went q))
          × IsCalm q
          × ((port : Bytes)
              → Follows (parser.connections port) (payloads_of port ps) (q.connections port)))
unfolding packets packet_info payloads_of
packets-Follows [] parser h = inr (parser, refl, h, λ port. no_payloads)
packets-Follows (p ∷ ps) parser h =
    one_packet parser (sides p) p.payload (λ port. payloads_of port ps) (λ q. packets ps q) h
      (λ q k. packets-Follows ps q k)
