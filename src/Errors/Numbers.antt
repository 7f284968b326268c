-- ===== src/Errors/Numbers.antt =====
-- flare-core-base/src/error/code.rs: codes from numbers, and categories.
use flare_server_core.Prelude.{
  ℕ, Bool, Option, none, some, List, [], ◌∷◌, leb, ◌&&◌, ◌==◌, if◌then◌else◌,
}
use flare_server_core.Errors.Code.{
  ErrorCode, as_u32, connection_failed, connection_timeout, connection_closed, connection_refused,
  connection_limit_exceeded, not_connected, connection_reconnecting, authentication_failed,
  authentication_expired, authentication_invalid, authentication_required, permission_denied,
  token_invalid, token_expired, protocol_error, protocol_version_mismatch, protocol_not_supported,
  message_format_error, message_too_large, invalid_command, message_send_failed,
  message_delivery_failed, message_not_found, message_expired, message_rate_limit_exceeded,
  message_decode_failed, user_not_found, user_offline, user_blocked, user_quota_exceeded,
  user_session_limit_exceeded, internal_error, service_unavailable, resource_exhausted,
  configuration_error, database_error, network_error, network_timeout, network_unreachable,
  network_connection_lost, serialization_error, deserialization_error, encoding_error,
  general_error, invalid_parameter, operation_not_supported, operation_failed, operation_timeout,
  bad_request, sync_cursor_regression, unknown_error, http_bad_request, http_unauthorized,
  http_forbidden, http_not_found, http_method_not_allowed, http_request_timeout, http_conflict,
  http_unprocessable_entity, http_too_many_requests, http_internal_server_error, http_bad_gateway,
  http_service_unavailable, http_gateway_timeout,
}

-- The arms of the `match` of `from_u32`.
abbrev pub arms : List (ℕ × ErrorCode)
arms =
    (1000, connection_failed)
    ∷ (1001, connection_timeout)
    ∷ (1002, connection_closed)
    ∷ (1003, connection_refused)
    ∷ (1004, connection_limit_exceeded)
    ∷ (1005, not_connected)
    ∷ (1006, connection_reconnecting)
    ∷ (2000, authentication_failed)
    ∷ (2001, authentication_expired)
    ∷ (2002, authentication_invalid)
    ∷ (2003, authentication_required)
    ∷ (2004, permission_denied)
    ∷ (2005, token_invalid)
    ∷ (2006, token_expired)
    ∷ (3000, protocol_error)
    ∷ (3001, protocol_version_mismatch)
    ∷ (3002, protocol_not_supported)
    ∷ (3003, message_format_error)
    ∷ (3004, message_too_large)
    ∷ (3005, invalid_command)
    ∷ (4000, message_send_failed)
    ∷ (4001, message_delivery_failed)
    ∷ (4002, message_not_found)
    ∷ (4003, message_expired)
    ∷ (4004, message_rate_limit_exceeded)
    ∷ (4005, message_decode_failed)
    ∷ (5000, user_not_found)
    ∷ (5001, user_offline)
    ∷ (5002, user_blocked)
    ∷ (5003, user_quota_exceeded)
    ∷ (5004, user_session_limit_exceeded)
    ∷ (6000, internal_error)
    ∷ (6001, service_unavailable)
    ∷ (6002, resource_exhausted)
    ∷ (6003, configuration_error)
    ∷ (6004, database_error)
    ∷ (7000, network_error)
    ∷ (7001, network_timeout)
    ∷ (7002, network_unreachable)
    ∷ (7003, network_connection_lost)
    ∷ (8000, serialization_error)
    ∷ (8001, deserialization_error)
    ∷ (8002, encoding_error)
    ∷ (9000, general_error)
    ∷ (9001, invalid_parameter)
    ∷ (9002, operation_not_supported)
    ∷ (9003, operation_failed)
    ∷ (9004, operation_timeout)
    ∷ (9005, bad_request)
    ∷ (9101, sync_cursor_regression)
    ∷ (9999, unknown_error)
    ∷ (400, http_bad_request)
    ∷ (401, http_unauthorized)
    ∷ (403, http_forbidden)
    ∷ (404, http_not_found)
    ∷ (405, http_method_not_allowed)
    ∷ (408, http_request_timeout)
    ∷ (409, http_conflict)
    ∷ (422, http_unprocessable_entity)
    ∷ (429, http_too_many_requests)
    ∷ (500, http_internal_server_error)
    ∷ (502, http_bad_gateway)
    ∷ (503, http_service_unavailable)
    ∷ (504, http_gateway_timeout)
    ∷ []

-- The first arm of the number.
unfoldable pub first_arm : ℕ → List (ℕ × ErrorCode) → Option ErrorCode
first_arm code [] = none
first_arm code ((n, c) ∷ rest) = if code == n then some c else first_arm code rest

-- ErrorCode::from_u32
unfoldable pub from_u32 : ℕ → Option ErrorCode
unfolding first_arm
from_u32 code = first_arm code arms

pub data ErrorCategory : Type 0 where
  connection authentication protocol message user system network serialization general :
      ErrorCategory

-- `first..=last`
abbrev pub within : (first last code : ℕ) → Bool
within first last code = leb first code && leb code last

-- The ranges of `category`.
unfoldable pub category_of : ℕ → ErrorCategory
category_of code =
    if within 1000 1999 code
    then connection
    else if within 2000 2999 code
    then authentication
    else if within 3000 3999 code
    then protocol
    else if within 4000 4999 code
    then message
    else if within 5000 5999 code
    then user
    else if within 6000 6999 code
    then system
    else if within 7000 7999 code
    then network
    else if within 8000 8999 code
    then serialization
    else general

-- ErrorCode::category
unfoldable pub category : ErrorCode → ErrorCategory
unfolding category_of
category c = category_of (as_u32 c)
