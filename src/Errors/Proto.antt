-- ===== src/Errors/Proto.antt =====
-- flare-core-base/src/error: proto.rs, and grpc.rs with the feature `proto`. The encoding of
-- `ErrorDetail` in bytes is prost's: `encode` and `decode` are parameters.
use flare_server_core.Prelude.{
  ℕ, ◌-◌, ◌%◌, ◌^◌, Bool, true, false, not, Option, none, some, String, ltb, unwrap_or,
  if◌then◌else◌, str_eq, Result, ok, err,
}
use flare_server_core.Prelude.Int.{ℤ, pos, negsuc}
use flare_server_core.Errors.Code.{
  ErrorCode, as_u32, internal_error, network_error, general_error, authentication_failed,
  permission_denied, invalid_parameter, user_not_found, resource_exhausted, service_unavailable,
  operation_timeout, unknown_error,
}
use flare_server_core.Errors.Numbers.{from_u32}
use flare_server_core.Errors.Grpc.{
  Code, code_ok, invalid_argument, deadline_exceeded, code_not_found, code_permission_denied,
  code_resource_exhausted, code_internal, unavailable, unauthenticated, already_exists,
  map_error_code_to_grpc,
}
use flare_server_core.Errors.Flare.{
  FlareError, localized, system, io, LocalizedError, from_localized, flare_localized,
}

-- `flare_proto::common::ErrorDetail`, as proto.rs builds it.
pub record ErrorDetail : Type 0 where
  pub code : ℤ
  pub reason : String
  pub message : String
  pub track : String

-- ok_error_detail
unfoldable pub ok_error_detail : String → ErrorDetail
ok_error_detail track = record { code = pos 0; reason = "OK"; message = ""; track = track }

-- `code as i32`
abbrev pub as_i32 : ℕ → ℤ
as_i32 x = if ltb (x % 2 ^ 32) (2 ^ 31) then pos (x % 2 ^ 32) else negsuc (2 ^ 32 - 1 - x % 2 ^ 32)

-- to_error_detail
unfoldable pub to_error_detail : FlareError → String → ErrorDetail
to_error_detail (localized c r d p t) track = record {
  code = as_i32 (as_u32 c);
  reason = r;
  message = unwrap_or "" d;
  track = track;
}
to_error_detail (system msg) track = record {
  code = as_i32 (as_u32 internal_error);
  reason = "internal";
  message = msg;
  track = track;
}
to_error_detail (io msg) track = record {
  code = as_i32 (as_u32 network_error);
  reason = "network";
  message = msg;
  track = track;
}

-- `code.max(0) as u32`
abbrev pub max_zero : ℤ → ℕ
max_zero (pos n) = n
max_zero (negsuc n) = 0

-- from_error_detail
unfoldable pub from_error_detail : ErrorDetail → (now : ℕ) → FlareError
from_error_detail d now =
    localized (unwrap_or general_error (from_u32 (max_zero d.code))) d.reason
      (if str_eq d.message "" then none else some d.message) none now

-- `tonic::Status`: its code, its message and its details.
pub record Status (B : Type 0) : Type 0 where
  pub code : Code
  pub message : String
  pub details : B

abbrev pub is_ok_code : Code → Bool
is_ok_code code_ok = true
is_ok_code _ = false

-- grpc.rs: is_ok, is_err
unfoldable pub is_ok : {B : Type 0} → Status B → Bool
is_ok s = is_ok_code s.code

unfoldable pub is_err : {B : Type 0} → Status B → Bool
is_err s = not (is_ok_code s.code)

-- build_status
unfoldable pub build_status : {B : Type 0} → (ErrorDetail → B) → Code → ErrorDetail → Status B
build_status encode c d = record {
  code = c;
  message = if str_eq d.message "" then d.reason else d.message;
  details = encode d;
}

-- decode_error_detail
unfoldable pub decode_error_detail :
    {B : Type 0} → (B → Option ErrorDetail) → Status B → Option ErrorDetail
decode_error_detail decode s = decode s.details

-- has_error_detail
unfoldable pub has_error_detail : {B : Type 0} → (B → Option ErrorDetail) → Status B → Bool
unfolding decode_error_detail
has_error_detail decode s = elim (decode_error_detail decode s) [ none ↦ false | some _ ↦ true ]

abbrev pub status_code : FlareError → Code
status_code (localized c r d p t) = map_error_code_to_grpc c
status_code (system msg) = code_internal
status_code (io msg) = unavailable

-- `From<FlareError> for Status`
unfoldable pub status_of : {B : Type 0} → (ErrorDetail → B) → FlareError → Status B
unfolding build_status
status_of encode e = build_status encode (status_code e) (to_error_detail e "")

-- `From<LocalizedError> for Status`
unfoldable pub status_of_localized : {B : Type 0} → (ErrorDetail → B) → LocalizedError → Status B
unfolding status_of
status_of_localized encode e = status_of encode (from_localized e)

-- IntoGrpc::into_grpc
unfoldable pub into_grpc :
    {A B : Type 0} → (ErrorDetail → B) → Result A FlareError → Result A (Status B)
unfolding status_of
into_grpc encode (ok x) = ok x
into_grpc encode (err e) = err (status_of encode e)

abbrev pub code_of_status : Code → ErrorCode
code_of_status unauthenticated = authentication_failed
code_of_status code_permission_denied = permission_denied
code_of_status invalid_argument = invalid_parameter
code_of_status code_not_found = user_not_found
code_of_status already_exists = general_error
code_of_status code_resource_exhausted = resource_exhausted
code_of_status code_internal = internal_error
code_of_status unavailable = service_unavailable
code_of_status deadline_exceeded = operation_timeout
code_of_status _ = unknown_error

-- conversions.rs, `From<tonic::Status> for FlareError`
unfoldable pub from_status : {B : Type 0} → Status B → (now : ℕ) → FlareError
unfolding flare_localized
from_status s now = flare_localized (code_of_status s.code) s.message now
