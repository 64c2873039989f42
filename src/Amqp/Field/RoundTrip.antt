-- ===== src/Amqp/Field/RoundTrip.antt =====
-- Tables written and read (write.go, read.go).
use gitbook_golang.Prelude.{◌+◌, ◌*◌, refl, [], arith, length}
use gitbook_golang.Amqp.Field.{
  zero_time, unix, Value, bool, byte, int16, int, int32, int64, float32, float64, decimal, string,
  byte_slice, array, time, table, nil, unsupported, Items, no_items, item, Table, no_entries, entry,
}
use gitbook_golang.Amqp.Field.Contents.{
  sized_codec, string_codec, timestamp_codec, boolean, boolean_octet,
}
use gitbook_golang.Amqp.Field.Distinct.{extend, extend-Distinct}
use gitbook_golang.Amqp.Field.Encodable.{IsEncodable, AreEncodable, HasEncodable, IsTable}
use gitbook_golang.Amqp.Field.Loops.{
  FieldCodec, ItemsCodec, EntriesCodec, plain, array_field, table_field, item_codec, entry_codec,
  decimal_codec, array_loop-nil, table_loop-nil,
}
use gitbook_golang.Amqp.Field.Read.{nested, read_value, read_field, read_buffer, read_table}
use gitbook_golang.Amqp.Field.Write.{write_type, as_longstr, write_field, write_table}
use gitbook_golang.Amqp.Strings.{longstr}
use gitbook_golang.Amqp.Wire.Codec.{Codec, seq, Codec-map}
use gitbook_golang.Amqp.Wire.Words.{uint}

mutual
  unfolding read_field write_field read_value write_type extend

  field_codec : (v : Value) → IsEncodable v → FieldCodec v
  field_codec (bool b) h = plain (bool b) λ items entries.
      seq (uint 1 (omega arith)) _ (Codec-map (uint 1 (boolean_octet b)) _ (λ rest. rw (boolean b)))
  field_codec (string xs) h =
      plain (string xs) λ items entries.
        seq (uint 1 (omega arith)) _ (Codec-map (string_codec xs h) _ (λ rest. refl))
  field_codec (byte_slice xs) h =
      plain (byte_slice xs) λ items entries.
        seq (uint 1 (omega arith)) _ (Codec-map (sized_codec xs h) _ (λ rest. refl))
  field_codec (byte n) h =
      plain (byte n)
        λ items entries. seq (uint 1 (omega arith)) _ (Codec-map (uint 1 h) _ (λ rest. refl))
  field_codec (int16 n) h =
      plain (int16 n)
        λ items entries. seq (uint 1 (omega arith)) _ (Codec-map (uint 2 h) _ (λ rest. refl))
  field_codec (int32 n) h =
      plain (int32 n)
        λ items entries. seq (uint 1 (omega arith)) _ (Codec-map (uint 4 h) _ (λ rest. refl))
  field_codec (int64 n) h =
      plain (int64 n)
        λ items entries. seq (uint 1 (omega arith)) _ (Codec-map (uint 8 h) _ (λ rest. refl))
  field_codec (float32 n) h =
      plain (float32 n)
        λ items entries. seq (uint 1 (omega arith)) _ (Codec-map (uint 4 h) _ (λ rest. refl))
  field_codec (float64 n) h =
      plain (float64 n)
        λ items entries. seq (uint 1 (omega arith)) _ (Codec-map (uint 8 h) _ (λ rest. refl))
  field_codec (decimal scale value) h =
      plain (decimal scale value)
        λ items entries. seq (uint 1 (omega arith)) _ (decimal_codec h.0 h.1)
  field_codec (time zero_time) h = absurd h
  field_codec (time (unix n)) h =
      plain (time (unix n)) λ items entries.
        seq (uint 1 (omega arith)) _ (Codec-map (timestamp_codec h) _ (λ rest. refl))
  field_codec nil h = plain nil λ items entries. Codec-map (uint 1 (omega arith)) _ (λ rest. refl)
  field_codec (int n) h = absurd h
  field_codec unsupported h = absurd h
  field_codec (array vs) h = array_field vs (items_codec vs h.0) h.1
  field_codec (table t) h = table_field t (entries_codec t h.0) h.1 h.2

  items_codec : (vs : Items) → AreEncodable vs → ItemsCodec vs
  items_codec no_items h = record { bytes = []; writes = refl; reads = array_loop-nil }
  items_codec (item v vs) h = item_codec v vs (field_codec v h.0) (items_codec vs h.1)

  entries_codec : (t : Table) → HasEncodable t → EntriesCodec t
  entries_codec no_entries h = record { bytes = []; writes = refl; reads = table_loop-nil }
  entries_codec (entry k v t) h = entry_codec k v t h.0 (field_codec v h.1) (entries_codec t h.2)

-- A table of values that read back as themselves, with distinct keys and within the widths of the
-- wire format, is written without an error, and reading the bytes with anything behind them gives the
-- table back and leaves what is behind.
pub table_lem : {t : Table} → IsTable t → Codec (write_table t) read_table t
unfolding write_table read_table read_buffer nested as_longstr
table_lem {t} h =
    let c = entries_codec t h.0 in
    let small = h.2 c.bytes c.writes in
    let fuel = 2 * length c.bytes + 2 in
    rw c.writes (
      Codec-map (longstr small) _
        (λ rest. rw (c.reads fuel no_entries (omega arith)) (rw (extend-Distinct t h.1) refl)))
