-- ===== src/Amqp/Field/Write.antt =====
-- `writeField` and `writeTable` of write.go.
use gitbook_golang.Prelude.{ℕ, ◌-◌, ◌%◌, ◌^◌, if◌then◌else◌, length}
use gitbook_golang.Amqp.Field.{
  Time, zero_time, unix, Value, bool, byte, int16, int, int32, int64, float32, float64, decimal,
  string, byte_slice, array, time, table, nil, unsupported, Items, no_items, item, Table,
  no_entries, entry,
}
use gitbook_golang.Amqp.Strings.{write_shortstr, write_longstr}
use gitbook_golang.Amqp.Wire.{err_field_type, Written, done, failed, return, ◌>>◌, write_uint}

-- `uint64(t.Unix())`; the zero time is -62135596800 s.
unfoldable pub unix_seconds : Time → ℕ
unix_seconds zero_time = 2 ^ 64 - 62135596800
unix_seconds (unix s) = s

-- The octet that names the type.
unfoldable pub write_type : ℕ → Written
write_type c = write_uint 1 c

-- What was written to a buffer, behind its length in 32 bits.
unfoldable pub sized : Written → Written
sized (done xs) = do write_uint 4 (length xs % 2 ^ 32); done xs
sized (failed e) = failed e

-- The contents of a table as a long string.
unfoldable pub as_longstr : Written → Written
as_longstr (done xs) = write_longstr xs
as_longstr (failed e) = failed e

unfoldable mutual
  pub write_field : Value → Written
  write_field (bool v) = do write_type b't'; write_uint 1 (if v then 1 else 0)
  write_field (byte v) = do write_type b'b'; write_uint 1 v
  write_field (int16 v) = do write_type b's'; write_uint 2 v
  write_field (int v) = do write_type b'I'; write_uint 4 (v % 2 ^ 32)
  write_field (int32 v) = do write_type b'I'; write_uint 4 v
  write_field (int64 v) = do write_type b'l'; write_uint 8 v
  write_field (float32 v) = do write_type b'f'; write_uint 4 v
  write_field (float64 v) = do write_type b'd'; write_uint 8 v
  write_field (decimal scale value) = do write_type b'D'; write_uint 1 scale; write_uint 4 value
  write_field (string v) = do write_type b'S'; sized (done v)
  write_field (array v) = do write_type b'A'; sized (write_items v)
  write_field (time v) = do write_type b'T'; write_uint 8 (unix_seconds v)
  write_field (table v) = do write_type b'F'; as_longstr (write_entries v)
  write_field (byte_slice v) = do write_type b'x'; sized (done v)
  write_field nil = write_type b'V'
  write_field unsupported = failed err_field_type

  pub write_items : Items → Written
  write_items no_items = return
  write_items (item v vs) = do write_field v; write_items vs

  pub write_entries : Table → Written
  write_entries no_entries = return
  write_entries (entry k v t) = do write_shortstr k; write_field v; write_entries t

unfoldable pub write_table : Table → Written
write_table t = as_longstr (write_entries t)
