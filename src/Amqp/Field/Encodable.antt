-- ===== src/Amqp/Field/Encodable.antt =====
-- The values that survive a write and a read.
use gitbook_golang.Prelude.{ℕ, ◌^◌, ◌<◌, ◌≡◌, length}
use gitbook_golang.Amqp.Field.{
  Time, zero_time, unix, Value, bool, byte, int16, int, int32, int64, float32, float64, decimal,
  string, byte_slice, array, time, table, nil, unsupported, Items, no_items, item, Table,
  no_entries, entry,
}
use gitbook_golang.Amqp.Field.Distinct.{Distinct}
use gitbook_golang.Amqp.Field.Write.{write_items, write_entries}
use gitbook_golang.Amqp.Wire.{Bytes, Written, done}

-- A write that succeeds gives fewer than `n` bytes.
abbrev pub Fits : ℕ → Written → Type 0
Fits n w = (xs : Bytes) → w ≡ done xs → length xs < n

abbrev pub IsTimestamp : Time → Type 0
IsTimestamp zero_time = ⊥
IsTimestamp (unix s) = s < 2 ^ 64

-- A value of a type that reads back as itself, its numbers and lengths within their widths, and the
-- keys of a table distinct, as they are in a map.
abbrev mutual
  pub IsEncodable : Value → Type 0
  IsEncodable (bool v) = Unit {0}
  IsEncodable (byte v) = v < 2 ^ 8
  IsEncodable (int16 v) = v < 2 ^ 16
  IsEncodable (int v) = ⊥
  IsEncodable (int32 v) = v < 2 ^ 32
  IsEncodable (int64 v) = v < 2 ^ 64
  IsEncodable (float32 v) = v < 2 ^ 32
  IsEncodable (float64 v) = v < 2 ^ 64
  IsEncodable (decimal scale value) = (scale < 2 ^ 8) × (value < 2 ^ 32)
  IsEncodable (string v) = length v < 2 ^ 31
  IsEncodable (byte_slice v) = length v < 2 ^ 31
  IsEncodable (array vs) = AreEncodable vs × Fits (2 ^ 32) (write_items vs)
  IsEncodable (time t) = IsTimestamp t
  IsEncodable (table t) = HasEncodable t × Distinct t × Fits (2 ^ 31) (write_entries t)
  IsEncodable nil = Unit {0}
  IsEncodable unsupported = ⊥

  pub AreEncodable : Items → Type 0
  AreEncodable no_items = Unit {0}
  AreEncodable (item v vs) = IsEncodable v × AreEncodable vs

  pub HasEncodable : Table → Type 0
  HasEncodable no_entries = Unit {0}
  HasEncodable (entry k v t) = (length k < 2 ^ 8) × IsEncodable v × HasEncodable t

abbrev pub IsTable : Table → Type 0
IsTable t = HasEncodable t × Distinct t × Fits (2 ^ 31) (write_entries t)
