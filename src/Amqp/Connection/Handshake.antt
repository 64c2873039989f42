-- ===== src/Amqp/Connection/Handshake.antt =====
-- The protocol header with which a client greets a server (types.go), and what `Parse` makes of it.
use gitbook_golang.Prelude.{◌≡◌, refl, some, [], ◌∷◌, ◌++◌}
use gitbook_golang.Amqp.Channel.{went}
use gitbook_golang.Amqp.Connection.{Connection, turn, and_turn, parse_loop, parse}
use gitbook_golang.Amqp.Frame.Read.{parse_frame, check_end, part, read_frame}
use gitbook_golang.Amqp.Wire.{Bytes, err_frame, err, Written, done, read_full, be_decode}
use gitbook_golang.Text.{codes}

-- `protocolHeader.write`
unfoldable pub write_protocol_header : Written
write_protocol_header = done (codes "AMQP" ++ 0 ∷ 0 ∷ 9 ∷ 1 ∷ [])

-- The protocol header is written without an error and is no frame: reading one from it fails with
-- ErrFrame and seven octets taken, and `Parse` on it returns and leaves the connection as it was.
pub parse-write_protocol_header :
    (c : Connection)
    → (bytes : Bytes) × (write_protocol_header ≡ done bytes)
      × (read_frame bytes ≡ err err_frame (1 ∷ []))
      × (parse c bytes ≡ some (went c))
unfolding write_protocol_header parse parse_loop turn and_turn read_frame read_full part parse_frame
    be_decode check_end
parse-write_protocol_header c = (codes "AMQP" ++ 0 ∷ 0 ∷ 9 ∷ 1 ∷ [], refl, refl, refl)
