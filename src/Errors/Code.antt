-- ===== src/Errors/Code.antt =====
-- flare-core-base/src/error/code.rs: the error codes and their numbers.
use flare_server_core.Prelude.{ℕ, Bool, true, false}

pub data ErrorCode : Type 0 where
  connection_failed connection_timeout connection_closed connection_refused : ErrorCode
  connection_limit_exceeded not_connected connection_reconnecting authentication_failed : ErrorCode
  authentication_expired authentication_invalid authentication_required permission_denied :
      ErrorCode
  token_invalid token_expired protocol_error protocol_version_mismatch : ErrorCode
  protocol_not_supported message_format_error message_too_large invalid_command : ErrorCode
  message_send_failed message_delivery_failed message_not_found message_expired : ErrorCode
  message_rate_limit_exceeded message_decode_failed user_not_found user_offline user_blocked :
      ErrorCode
  user_quota_exceeded user_session_limit_exceeded internal_error service_unavailable : ErrorCode
  resource_exhausted configuration_error database_error network_error network_timeout : ErrorCode
  network_unreachable network_connection_lost serialization_error deserialization_error : ErrorCode
  encoding_error general_error invalid_parameter operation_not_supported operation_failed :
      ErrorCode
  operation_timeout bad_request sync_cursor_regression unknown_error http_bad_request : ErrorCode
  http_unauthorized http_forbidden http_not_found http_method_not_allowed : ErrorCode
  http_request_timeout http_conflict http_unprocessable_entity http_too_many_requests : ErrorCode
  http_internal_server_error http_bad_gateway http_service_unavailable http_gateway_timeout :
      ErrorCode

-- ErrorCode::as_u32, the discriminants of the enum
abbrev pub as_u32 : ErrorCode → ℕ
as_u32 connection_failed = 1000
as_u32 connection_timeout = 1001
as_u32 connection_closed = 1002
as_u32 connection_refused = 1003
as_u32 connection_limit_exceeded = 1004
as_u32 not_connected = 1005
as_u32 connection_reconnecting = 1006
as_u32 authentication_failed = 2000
as_u32 authentication_expired = 2001
as_u32 authentication_invalid = 2002
as_u32 authentication_required = 2003
as_u32 permission_denied = 2004
as_u32 token_invalid = 2005
as_u32 token_expired = 2006
as_u32 protocol_error = 3000
as_u32 protocol_version_mismatch = 3001
as_u32 protocol_not_supported = 3002
as_u32 message_format_error = 3003
as_u32 message_too_large = 3004
as_u32 invalid_command = 3005
as_u32 message_send_failed = 4000
as_u32 message_delivery_failed = 4001
as_u32 message_not_found = 4002
as_u32 message_expired = 4003
as_u32 message_rate_limit_exceeded = 4004
as_u32 message_decode_failed = 4005
as_u32 user_not_found = 5000
as_u32 user_offline = 5001
as_u32 user_blocked = 5002
as_u32 user_quota_exceeded = 5003
as_u32 user_session_limit_exceeded = 5004
as_u32 internal_error = 6000
as_u32 service_unavailable = 6001
as_u32 resource_exhausted = 6002
as_u32 configuration_error = 6003
as_u32 database_error = 6004
as_u32 network_error = 7000
as_u32 network_timeout = 7001
as_u32 network_unreachable = 7002
as_u32 network_connection_lost = 7003
as_u32 serialization_error = 8000
as_u32 deserialization_error = 8001
as_u32 encoding_error = 8002
as_u32 general_error = 9000
as_u32 invalid_parameter = 9001
as_u32 operation_not_supported = 9002
as_u32 operation_failed = 9003
as_u32 operation_timeout = 9004
as_u32 bad_request = 9005
as_u32 sync_cursor_regression = 9101
as_u32 unknown_error = 9999
as_u32 http_bad_request = 400
as_u32 http_unauthorized = 401
as_u32 http_forbidden = 403
as_u32 http_not_found = 404
as_u32 http_method_not_allowed = 405
as_u32 http_request_timeout = 408
as_u32 http_conflict = 409
as_u32 http_unprocessable_entity = 422
as_u32 http_too_many_requests = 429
as_u32 http_internal_server_error = 500
as_u32 http_bad_gateway = 502
as_u32 http_service_unavailable = 503
as_u32 http_gateway_timeout = 504

-- ErrorCode::is_retryable
unfoldable pub is_retryable : ErrorCode → Bool
is_retryable connection_timeout = true
is_retryable connection_closed = true
is_retryable network_timeout = true
is_retryable network_connection_lost = true
is_retryable service_unavailable = true
is_retryable resource_exhausted = true
is_retryable _ = false
