-- ===== src/Tests/Values.antt =====
-- Tables that are validated, the greeting, errors and heaps at concrete inputs.
use gitbook_golang.Prelude.{◌≡◌, refl, true, some, [], ◌∷◌}
use gitbook_golang.Amqp.Channel.{went}
use gitbook_golang.Amqp.Connection.{parse}
use gitbook_golang.Amqp.Connection.Handshake.{write_protocol_header, parse-write_protocol_header}
use gitbook_golang.Amqp.Errors.{not_found, is_soft_exception_code, new_error}
use gitbook_golang.Amqp.Field.{array, nil, unsupported, no_items, item, Table, no_entries, entry}
use gitbook_golang.Amqp.Field.Validate.{
  not_supported, in_array, in_table, or_invalid, wrapped, validate_field, validate_items,
  validate_entries, validate, Agree, validate-write_table,
}
use gitbook_golang.Amqp.Field.Write.{write_table}
use gitbook_golang.Amqp.Frame.Read.{read_frame}
use gitbook_golang.Amqp.TagSet.{get_elem?, set_at, with_elem, swap, push, pop}
use gitbook_golang.Amqp.Wire.{Bytes, err_frame, err, done}
use gitbook_golang.Tests.{some_connection}
use gitbook_golang.Text.{codes}

-- An array with a value of an unknown type, under the key `a`.
abbrev some_table : Table
some_table = entry (codes "a") (array (item nil (item unsupported no_items))) no_entries

validate-write_table_example : Agree (validate some_table) (write_table some_table)
validate-write_table_example = validate-write_table some_table

some_invalid : validate some_table ≡ some (in_table (codes "a") (in_array not_supported))
unfolding validate validate_field validate_items validate_entries or_invalid wrapped
some_invalid = refl

parse-write_protocol_header_example :
    (bytes : Bytes) × (write_protocol_header ≡ done bytes)
    × (read_frame bytes ≡ err err_frame (1 ∷ []))
    × (parse some_connection bytes ≡ some (went some_connection))
parse-write_protocol_header_example = parse-write_protocol_header some_connection

soft_error : (new_error not_found (codes "no queue")).recover ≡ true
unfolding new_error is_soft_exception_code
soft_error = refl

pushed : pop (push 3 (push 5 [])) ≡ some (3, 5 ∷ [])
unfolding pop push with_elem get_elem?
pushed = refl

swapped : swap 0 2 (1 ∷ 2 ∷ 3 ∷ []) ≡ some (3 ∷ 2 ∷ 1 ∷ [])
unfolding swap with_elem get_elem? set_at
swapped = refl
