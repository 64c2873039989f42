-- ===== src/Amqp/Errors.antt =====
-- The reply codes of spec091.go, and the errors that types.go makes of them. The texts of the readers' and
-- writers' errors are here; `Error` of Amqp/Wire tells them apart.
use gitbook_golang.Prelude.{ℕ, Bool, true, false, ◌==◌, if◌then◌else◌}
use gitbook_golang.Amqp.Wire.{Bytes}
use gitbook_golang.Text.{codes}

abbrev pub frame_min_size : ℕ
frame_min_size = 4096

abbrev pub reply_success : ℕ
reply_success = 200

abbrev pub content_too_large : ℕ
content_too_large = 311

abbrev pub no_route : ℕ
no_route = 312

abbrev pub no_consumers : ℕ
no_consumers = 313

abbrev pub connection_forced : ℕ
connection_forced = 320

abbrev pub invalid_path : ℕ
invalid_path = 402

abbrev pub access_refused : ℕ
access_refused = 403

abbrev pub not_found : ℕ
not_found = 404

abbrev pub resource_locked : ℕ
resource_locked = 405

abbrev pub precondition_failed : ℕ
precondition_failed = 406

abbrev pub frame_error : ℕ
frame_error = 501

abbrev pub syntax_error : ℕ
syntax_error = 502

abbrev pub command_invalid : ℕ
command_invalid = 503

abbrev pub channel_error : ℕ
channel_error = 504

abbrev pub unexpected_frame : ℕ
unexpected_frame = 505

abbrev pub resource_error : ℕ
resource_error = 506

abbrev pub not_allowed : ℕ
not_allowed = 530

abbrev pub not_implemented : ℕ
not_implemented = 540

abbrev pub internal_error : ℕ
internal_error = 541

unfoldable pub is_soft_exception_code : ℕ → Bool
is_soft_exception_code code =
    if code == 311
    then true
    else if code == 312
    then true
    else if code == 313
    then true
    else if code == 403
    then true
    else if code == 404
    then true
    else if code == 405
    then true
    else if code == 406
    then true
    else false

-- `Error` of types.go. `server` is whether the server has sent it, `recover` whether trying again may
-- help.
pub record AmqpError : Type 0 where
  pub code : ℕ
  pub reason : Bytes
  pub server : Bool
  pub recover : Bool

-- An error that the package itself gives.
abbrev pub library_error : ℕ → Bytes → AmqpError
library_error code reason = record { code = code; reason = reason; server = false; recover = false }

abbrev pub err_closed_value : AmqpError
err_closed_value = library_error channel_error (codes "channel/connection is not open")

abbrev pub err_channel_max_value : AmqpError
err_channel_max_value = library_error channel_error (codes "channel id space exhausted")

abbrev pub err_sasl_value : AmqpError
err_sasl_value = library_error access_refused (codes "SASL could not negotiate a shared mechanism")

abbrev pub err_credentials_value : AmqpError
err_credentials_value = library_error access_refused (codes "username or password not allowed")

abbrev pub err_vhost_value : AmqpError
err_vhost_value = library_error access_refused (codes "no access to this vhost")

abbrev pub err_syntax_value : AmqpError
err_syntax_value = library_error syntax_error (codes "invalid field or value inside of a frame")

abbrev pub err_frame_value : AmqpError
err_frame_value = library_error frame_error (codes "frame could not be parsed")

abbrev pub err_command_invalid_value : AmqpError
err_command_invalid_value = library_error command_invalid (codes "unexpected command received")

abbrev pub err_unexpected_frame_value : AmqpError
err_unexpected_frame_value = library_error unexpected_frame (codes "unexpected frame received")

abbrev pub err_field_type_value : AmqpError
err_field_type_value = library_error syntax_error (codes "unsupported table field type")

unfoldable pub new_error : ℕ → Bytes → AmqpError
new_error code text = record {
  code = code;
  reason = text;
  server = true;
  recover = is_soft_exception_code code;
}
