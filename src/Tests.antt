-- ===== src/Tests.antt =====
-- Concrete runs of the model, the theorems at concrete inputs, and the data that both use.
pub mod Codecs
pub mod Channels
pub mod Consumers
pub mod Sniffer
pub mod Confirms
pub mod Streams
pub mod Values
pub mod Rabbitmq
use gitbook_golang.Prelude.{refl, false, some, [], ◌∷◌, arith}
use gitbook_golang.Amqp.Connection.{Endpoint, Connection, new_connection}
use gitbook_golang.Amqp.Field.{unix, int32, Table, no_entries, entry}
use gitbook_golang.Amqp.Field.Encodable.{IsTable}
use gitbook_golang.Amqp.Field.Write.{write_type, write_field, write_entries}
use gitbook_golang.Amqp.Frame.{MethodFrame, HeaderFrame, channel}
use gitbook_golang.Amqp.Frame.Codecs.{FitsMethod}
use gitbook_golang.Amqp.Properties.{Properties, no_properties}
use gitbook_golang.Amqp.Properties.Codecs.{FitsProperties}
use gitbook_golang.Amqp.Spec.Content.{BasicDeliver}
use gitbook_golang.Amqp.Spec.Message.{basic_deliver, set_content}
use gitbook_golang.Amqp.Spec.Message.Kinds.{message_id}
use gitbook_golang.Amqp.Strings.{write_shortstr, body}
use gitbook_golang.Amqp.Wire.{be_encode, write_uint}
use gitbook_golang.Amqp.Wire.Codec.{done-injective}

-- A table with the one key `k`.
abbrev pub some_headers : Table
some_headers = entry (107 ∷ []) (int32 5) no_entries

abbrev pub some_properties : Properties
some_properties = record no_properties {
  headers = some_headers;
  delivery_mode = 2;
  timestamp = unix 60;
}

-- A delivery for the consumer `c`, from the routing key `q`.
abbrev pub some_deliver : BasicDeliver
some_deliver = record {
  consumer_tag = 99 ∷ [];
  delivery_tag = 1;
  redelivered = false;
  exchange = [];
  routing_key = 113 ∷ [];
  properties = no_properties;
  body = [];
}

abbrev pub some_method : MethodFrame
some_method = record {
  channel_id = 1;
  class_id = 60;
  method_id = 60;
  method = some (basic_deliver some_deliver);
}

-- A content of three octets.
abbrev pub some_header : HeaderFrame
some_header = record {
  channel_id = 1;
  class_id = 60;
  weight = 0;
  size = 3;
  properties = some_properties;
}

abbrev pub some_endpoint : Endpoint
some_endpoint = record { host = 49 ∷ []; port = 50 ∷ [] }

abbrev pub some_connection : Connection
some_connection = new_connection some_endpoint some_endpoint

pub some_headers-IsTable : IsTable some_headers
unfolding write_entries write_field write_shortstr write_uint write_type be_encode
some_headers-IsTable = (
  (omega arith, omega arith, tt),
  (tt, tt),
  λ xs e. let same = done-injective e in rw (← same) (omega arith),
)

pub some_properties-FitsProperties : FitsProperties some_properties
some_properties-FitsProperties = record {
  content_type = omega arith;
  content_encoding = omega arith;
  headers = some_headers-IsTable;
  delivery_mode = omega arith;
  priority = omega arith;
  correlation_id = omega arith;
  reply_to = omega arith;
  expiration = omega arith;
  message_id = omega arith;
  timestamp = omega arith;
  type = omega arith;
  user_id = omega arith;
  app_id = omega arith;
  reserved1 = refl;
}

pub some_method-FitsMethod : FitsMethod some_method (basic_deliver some_deliver)
unfolding message_id set_content
some_method-FitsMethod = record {
  channel = omega arith;
  method = refl;
  class_id = refl;
  method_id = refl;
  fits = (omega arith, omega arith, omega arith, omega arith);
  bare = refl;
}
