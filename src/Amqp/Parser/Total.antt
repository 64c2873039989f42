-- ===== src/Amqp/Parser/Total.antt =====
-- `Parser.Parse` on any payload at all (parser.go).
use mathlib.Core.Path.{subst}
use gitbook_golang.Prelude.{◌≡◌, refl, inl, inr, Option, none, some, Bool-cases, bytes_eq}
use gitbook_golang.Amqp.Channel.{Step}
use gitbook_golang.Amqp.Channel.Total.{Runs, returns, panics}
use gitbook_golang.Amqp.Connection.{Endpoint, Connection, new_connection}
use gitbook_golang.Amqp.Connection.Total.{AllCalm, new_connection-AllCalm, parse-Finishes}
use gitbook_golang.Amqp.Parser.{
  Parser, new_parser, set_connection, or_connect, get_connection, keep, keep_result, parse_payload,
}
use gitbook_golang.Amqp.Wire.{Bytes}

pub record IsCalm (p : Parser) : Type 0 where
  pub calm : (port : Bytes) (c : Connection) → p.connections port ≡ some c → AllCalm c

pub new_parser-IsCalm : IsCalm new_parser
unfolding new_parser
new_parser-IsCalm = record { calm = λ port c e. cc }

set_connection-IsCalm :
    (port : Bytes) (c : Connection) (p : Parser)
    → IsCalm p
    → AllCalm c
    → IsCalm (set_connection port c p)
unfolding set_connection
set_connection-IsCalm port c p h k = record {
  calm = λ q d e. elim (Bool-cases (bytes_eq port q)) [
    | inl b ↦ let same : c ≡ d = cc (rw b at e) in subst AllCalm same k
    | inr b ↦ h.calm q d (rw b at e)
  ];
}

or_connect-IsCalm :
    (p : Parser) (sep cep : Endpoint) (o : Option Connection)
    → IsCalm p
    → ((c : Connection) → o ≡ some c → AllCalm c)
    → AllCalm (or_connect sep cep p o).0 × IsCalm (or_connect sep cep p o).1
unfolding or_connect
or_connect-IsCalm p sep cep (some c) h k = (k c refl, h)
or_connect-IsCalm p sep cep none h k =
    let new = new_connection-AllCalm sep cep in
    (new, set_connection-IsCalm cep.port (new_connection sep cep) p h new)

keep-Runs :
    (port : Bytes) (p : Parser) {s : Step Connection}
    → IsCalm p
    → Runs AllCalm s
    → Runs IsCalm (keep port p s)
unfolding keep
keep-Runs port p h (returns {a = c} k) = returns (set_connection-IsCalm port c p h k)
keep-Runs port p h panics = panics

-- On a parser whose connections have channels with open consumers that are not confirming, as every
-- parser that the program makes: whatever the payload is, its parsing returns or panics, and when it
-- returns, the parser is such again.
pub parse_payload-Finishes :
    (p : Parser) (payload : Bytes) (sep cep : Endpoint)
    → IsCalm p
    → (r : Step Parser) × (parse_payload p payload sep cep ≡ some r) × Runs IsCalm r
unfolding parse_payload get_connection keep_result
parse_payload-Finishes p payload sep cep h =
    let got = or_connect sep cep p (p.connections cep.port) in
    let (calm, calm_parser) =
      or_connect-IsCalm p sep cep (p.connections cep.port) h (λ c e. h.calm cep.port c e) in
    let (r, e, runs) = parse-Finishes got.0 payload calm in
    (keep cep.port got.1 r, rw e refl, keep-Runs cep.port got.1 calm_parser runs)
