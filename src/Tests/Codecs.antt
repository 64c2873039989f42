-- ===== src/Tests/Codecs.antt =====
-- Values written and read.
use gitbook_golang.Prelude.{◌≡◌, refl, ◌≢◌, [], ◌∷◌, arith}
use gitbook_golang.Amqp.Field.Ends.{read_table-ne-out_of_fuel}
use gitbook_golang.Amqp.Field.Read.{read_table}
use gitbook_golang.Amqp.Field.RoundTrip.{table_lem}
use gitbook_golang.Amqp.Field.Write.{write_table}
use gitbook_golang.Amqp.Frame.{method_frame, heartbeat_frame, write}
use gitbook_golang.Amqp.Frame.Codecs.{frame_codec}
use gitbook_golang.Amqp.Frame.Ends.{read_frame-Ends}
use gitbook_golang.Amqp.Frame.Read.{parse_heartbeat_frame, parse_frame, check_end, part, read_frame}
use gitbook_golang.Amqp.Properties.Codecs.{properties_codec}
use gitbook_golang.Amqp.Properties.Mask.{header_mask}
use gitbook_golang.Amqp.Properties.Read.{read_properties}
use gitbook_golang.Amqp.Properties.Write.{write_properties}
use gitbook_golang.Amqp.Spec.Message.{basic_deliver}
use gitbook_golang.Amqp.Spec.Message.Codecs.{without_content, message_codec}
use gitbook_golang.Amqp.Spec.Message.Kinds.{message_id}
use gitbook_golang.Amqp.Spec.Message.Read.{read_method}
use gitbook_golang.Amqp.Spec.Message.Write.{write_message}
use gitbook_golang.Amqp.Wire.{ok, out_of_fuel, read_full, be_decode}
use gitbook_golang.Amqp.Wire.Codec.{Codec}
use gitbook_golang.Amqp.Wire.Shrinks.{Ends}
use gitbook_golang.Tests.{
  some_headers, some_properties, some_deliver, some_method, some_headers-IsTable,
  some_properties-FitsProperties, some_method-FitsMethod,
}

frame_codec_example : Codec (write (method_frame some_method)) read_frame (method_frame some_method)
frame_codec_example =
    frame_codec (method_frame some_method) (basic_deliver some_deliver, some_method-FitsMethod)

message_codec_example :
    Codec
      (write_message (basic_deliver some_deliver))
      (read_method 60 60)
      (without_content (basic_deliver some_deliver))
unfolding message_id
message_codec_example =
    message_codec (basic_deliver some_deliver) (omega arith, omega arith, omega arith, omega arith)

table_lem_example : Codec (write_table some_headers) read_table some_headers
table_lem_example = table_lem some_headers-IsTable

properties_codec_example :
    Codec
      (write_properties (header_mask some_properties) some_properties)
      (read_properties (header_mask some_properties))
      some_properties
properties_codec_example = properties_codec some_properties some_properties-FitsProperties

-- A table whose only value has an unknown type.
read_table-ne-out_of_fuel_example : read_table (0 ∷ 0 ∷ 0 ∷ 3 ∷ 1 ∷ 107 ∷ 0 ∷ []) ≢ out_of_fuel
read_table-ne-out_of_fuel_example = read_table-ne-out_of_fuel (0 ∷ 0 ∷ 0 ∷ 3 ∷ 1 ∷ 107 ∷ 0 ∷ [])

-- A heartbeat, and an octet behind it.
read_frame-Ends_example : Ends 2 (read_frame (8 ∷ 0 ∷ 0 ∷ 0 ∷ 0 ∷ 0 ∷ 0 ∷ 206 ∷ 9 ∷ []))
read_frame-Ends_example = read_frame-Ends (8 ∷ 0 ∷ 0 ∷ 0 ∷ 0 ∷ 0 ∷ 0 ∷ 206 ∷ 9 ∷ [])

heartbeat_read :
    read_frame (8 ∷ 0 ∷ 0 ∷ 0 ∷ 0 ∷ 0 ∷ 0 ∷ 206 ∷ 9 ∷ [])
    ≡ ok (heartbeat_frame (record { channel_id = 0 })) (9 ∷ [])
unfolding read_frame read_full part be_decode parse_frame parse_heartbeat_frame check_end
heartbeat_read = refl
