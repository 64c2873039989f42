-- ===== src/Amqp/Field/Validate.antt =====
-- `validateField` and `Table.Validate` of types.go.
use gitbook_golang.Prelude.{Option, none, some, [], ◌++◌}
use gitbook_golang.Amqp.Field.{
  Value, bool, byte, int16, int, int32, int64, float32, float64, decimal, string, byte_slice, array,
  time, table, nil, unsupported, Items, no_items, item, Table, no_entries, entry,
}
use gitbook_golang.Amqp.Field.Write.{
  write_type, sized, as_longstr, write_field, write_items, write_entries, write_table,
}
use gitbook_golang.Amqp.Strings.{write_shortstr, write_longstr}
use gitbook_golang.Amqp.Wire.{Bytes, err_field_type, Written, done, failed, ◌>>◌, write_uint}

-- The error, with the arrays and the keys that lead to the value.
pub data Invalid : Type 0 where
  not_supported : Invalid
  in_array : Invalid → Invalid
  in_table : Bytes → Invalid → Invalid

-- The first error of a loop.
unfoldable pub or_invalid : Option Invalid → Option Invalid → Option Invalid
or_invalid (some e) rest = some e
or_invalid none rest = rest

unfoldable pub wrapped : (Invalid → Invalid) → Option Invalid → Option Invalid
wrapped w none = none
wrapped w (some e) = some (w e)

unfoldable mutual
  pub validate_field : Value → Option Invalid
  validate_field (bool v) = none
  validate_field (byte v) = none
  validate_field (int16 v) = none
  validate_field (int v) = none
  validate_field (int32 v) = none
  validate_field (int64 v) = none
  validate_field (float32 v) = none
  validate_field (float64 v) = none
  validate_field (decimal scale value) = none
  validate_field (string v) = none
  validate_field (byte_slice v) = none
  validate_field (time v) = none
  validate_field nil = none
  validate_field (array v) = validate_items v
  validate_field (table v) = validate_entries v
  validate_field unsupported = some not_supported

  pub validate_items : Items → Option Invalid
  validate_items no_items = none
  validate_items (item v vs) = or_invalid (wrapped in_array (validate_field v)) (validate_items vs)

  pub validate_entries : Table → Option Invalid
  validate_entries no_entries = none
  validate_entries (entry k v t) =
      or_invalid (wrapped (λ e. in_table k e) (validate_field v)) (validate_entries t)

unfoldable pub validate : Table → Option Invalid
validate t = validate_field (table t)

-- What `Validate` reports and what a writer leaves go together.
pub data Agree : Option Invalid → Written → Type 0 where
  accepted : (xs : Bytes) → Agree none (done xs)
  refused : (e : Invalid) → Agree (some e) (failed err_field_type)

wrapped-Agree :
    (w : Invalid → Invalid) (o : Option Invalid) (r : Written) → Agree o r → Agree (wrapped w o) r
unfolding wrapped
wrapped-Agree w o r (accepted xs) = accepted xs
wrapped-Agree w o r (refused e) = refused (w e)

rest-Agree : (xs : Bytes) (o : Option Invalid) (r : Written) → Agree o r → Agree o (do done xs; r)
rest-Agree xs o r (accepted ys) = accepted (xs ++ ys)
rest-Agree xs o r (refused e) = refused e

or_invalid-Agree :
    (o p : Option Invalid) (r s : Written)
    → Agree o r
    → Agree p s
    → Agree (or_invalid o p) (do r; s)
unfolding or_invalid
or_invalid-Agree o p r s (accepted xs) b = rest-Agree xs p s b
or_invalid-Agree o p r s (refused e) b = refused e

sized-Agree : (o : Option Invalid) (r : Written) → Agree o r → Agree o (sized r)
unfolding sized write_uint
sized-Agree o r (accepted xs) = accepted _
sized-Agree o r (refused e) = refused e

as_longstr-Agree : (o : Option Invalid) (r : Written) → Agree o r → Agree o (as_longstr r)
unfolding as_longstr write_longstr write_uint
as_longstr-Agree o r (accepted xs) = accepted _
as_longstr-Agree o r (refused e) = refused e

mutual
  unfolding validate_field validate_items validate_entries write_field write_items write_entries
      write_type write_shortstr write_uint sized

  field-Agree : (v : Value) → Agree (validate_field v) (write_field v)
  field-Agree (bool v) = accepted _
  field-Agree (byte v) = accepted _
  field-Agree (int16 v) = accepted _
  field-Agree (int v) = accepted _
  field-Agree (int32 v) = accepted _
  field-Agree (int64 v) = accepted _
  field-Agree (float32 v) = accepted _
  field-Agree (float64 v) = accepted _
  field-Agree (decimal scale value) = accepted _
  field-Agree (string v) = accepted _
  field-Agree (byte_slice v) = accepted _
  field-Agree (time v) = accepted _
  field-Agree nil = accepted _
  field-Agree (array v) = rest-Agree _ _ _ (sized-Agree _ _ (items-Agree v))
  field-Agree (table v) = rest-Agree _ _ _ (as_longstr-Agree _ _ (entries-Agree v))
  field-Agree unsupported = refused not_supported

  items-Agree : (vs : Items) → Agree (validate_items vs) (write_items vs)
  items-Agree no_items = accepted []
  items-Agree (item v vs) =
      or_invalid-Agree _ _ _ _ (wrapped-Agree in_array _ _ (field-Agree v)) (items-Agree vs)

  entries-Agree : (t : Table) → Agree (validate_entries t) (write_entries t)
  entries-Agree no_entries = accepted []
  entries-Agree (entry k v t) = rest-Agree _ _ _ (
      or_invalid-Agree _ _ _ _ (wrapped-Agree (λ e. in_table k e) _ _ (field-Agree v))
        (entries-Agree t))

-- For every table, one of two: `Validate` accepts it and `writeTable` writes it, or `Validate` reports an
-- error and `writeTable` fails with ErrFieldType.
pub validate-write_table : (t : Table) → Agree (validate t) (write_table t)
unfolding validate validate_field write_table
validate-write_table t = as_longstr-Agree _ _ (entries-Agree t)
