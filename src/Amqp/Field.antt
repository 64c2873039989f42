-- ===== src/Amqp/Field.antt =====
-- The values of a field table (types.go): what `interface{}` may hold in a `Table`.
pub mod Write
pub mod Read
pub mod Validate
pub mod Ends
pub mod Stable
pub mod Distinct
pub mod Encodable
pub mod Contents
pub mod Loops
pub mod RoundTrip
use gitbook_golang.Prelude.{ℕ, Bool, if◌then◌else◌, bytes_eq}
use gitbook_golang.Amqp.Wire.{Bytes}

-- A `time.Time` is the zero value, or a number of seconds since 1970 as the bit pattern of an int64.
pub data Time : Type 0 where
  zero_time : Time
  unix : ℕ → Time

-- The Go types of the values, signed integers and floats as their bit patterns. `int` is written as
-- an int32; `unsupported` is a value of any type that the package does not know. A `Table` is a Go
-- map: its entries in the order of one iteration. A nil map is one with no entry.
mutual
  pub data Value : Type 0 where
    bool : Bool → Value
    byte int16 int int32 int64 : ℕ → Value
    float32 float64 : ℕ → Value
    decimal : ℕ → ℕ → Value
    string byte_slice : Bytes → Value
    array : Items → Value
    time : Time → Value
    table : Table → Value
    nil unsupported : Value

  pub data Items : Type 0 where
    no_items : Items
    item : Value → Items → Items

  pub data Table : Type 0 where
    no_entries : Table
    entry : Bytes → Value → Table → Table

-- `table[key] = value`
unfoldable pub set : Bytes → Value → Table → Table
set k v no_entries = entry k v no_entries
set k v (entry j w t) = if bytes_eq j k then entry k v t else entry j w (set k v t)
