-- ===== src/Errors/Names.antt =====
-- flare-core-base/src/error/code.rs: the names of the codes.
use flare_server_core.Prelude.{String}
use flare_server_core.Errors.Code.{
  ErrorCode, connection_failed, connection_timeout, connection_closed, connection_refused,
  connection_limit_exceeded, not_connected, connection_reconnecting, authentication_failed,
  authentication_expired, authentication_invalid, authentication_required, permission_denied,
  token_invalid, token_expired, protocol_error, protocol_version_mismatch, protocol_not_supported,
  message_format_error, message_too_large, invalid_command, message_send_failed,
  message_delivery_failed, message_not_found, message_expired, message_rate_limit_exceeded,
  message_decode_failed, user_not_found, user_offline, user_blocked, user_quota_exceeded,
  user_session_limit_exceeded, internal_error, service_unavailable, resource_exhausted,
  configuration_error, database_error, network_error, network_timeout, network_unreachable,
  network_connection_lost, serialization_error, deserialization_error, encoding_error,
  general_error, invalid_parameter, operation_not_supported, operation_failed, operation_timeout,
  bad_request, sync_cursor_regression, unknown_error, http_bad_request, http_unauthorized,
  http_forbidden, http_not_found, http_method_not_allowed, http_request_timeout, http_conflict,
  http_unprocessable_entity, http_too_many_requests, http_internal_server_error, http_bad_gateway,
  http_service_unavailable, http_gateway_timeout,
}

-- ErrorCode::as_str
unfoldable pub as_str : ErrorCode → String
as_str connection_failed = "CONNECTION_FAILED"
as_str connection_timeout = "CONNECTION_TIMEOUT"
as_str connection_closed = "CONNECTION_CLOSED"
as_str connection_refused = "CONNECTION_REFUSED"
as_str connection_limit_exceeded = "CONNECTION_LIMIT_EXCEEDED"
as_str not_connected = "NOT_CONNECTED"
as_str connection_reconnecting = "CONNECTION_RECONNECTING"
as_str authentication_failed = "AUTHENTICATION_FAILED"
as_str authentication_expired = "AUTHENTICATION_EXPIRED"
as_str authentication_invalid = "AUTHENTICATION_INVALID"
as_str authentication_required = "AUTHENTICATION_REQUIRED"
as_str permission_denied = "PERMISSION_DENIED"
as_str token_invalid = "TOKEN_INVALID"
as_str token_expired = "TOKEN_EXPIRED"
as_str protocol_error = "PROTOCOL_ERROR"
as_str protocol_version_mismatch = "PROTOCOL_VERSION_MISMATCH"
as_str protocol_not_supported = "PROTOCOL_NOT_SUPPORTED"
as_str message_format_error = "MESSAGE_FORMAT_ERROR"
as_str message_too_large = "MESSAGE_TOO_LARGE"
as_str invalid_command = "INVALID_COMMAND"
as_str message_send_failed = "MESSAGE_SEND_FAILED"
as_str message_delivery_failed = "MESSAGE_DELIVERY_FAILED"
as_str message_not_found = "MESSAGE_NOT_FOUND"
as_str message_expired = "MESSAGE_EXPIRED"
as_str message_rate_limit_exceeded = "MESSAGE_RATE_LIMIT_EXCEEDED"
as_str message_decode_failed = "MESSAGE_DECODE_FAILED"
as_str user_not_found = "USER_NOT_FOUND"
as_str user_offline = "USER_OFFLINE"
as_str user_blocked = "USER_BLOCKED"
as_str user_quota_exceeded = "USER_QUOTA_EXCEEDED"
as_str user_session_limit_exceeded = "USER_SESSION_LIMIT_EXCEEDED"
as_str internal_error = "INTERNAL_ERROR"
as_str service_unavailable = "SERVICE_UNAVAILABLE"
as_str resource_exhausted = "RESOURCE_EXHAUSTED"
as_str configuration_error = "CONFIGURATION_ERROR"
as_str database_error = "DATABASE_ERROR"
as_str network_error = "NETWORK_ERROR"
as_str network_timeout = "NETWORK_TIMEOUT"
as_str network_unreachable = "NETWORK_UNREACHABLE"
as_str network_connection_lost = "NETWORK_CONNECTION_LOST"
as_str serialization_error = "SERIALIZATION_ERROR"
as_str deserialization_error = "DESERIALIZATION_ERROR"
as_str encoding_error = "ENCODING_ERROR"
as_str general_error = "GENERAL_ERROR"
as_str invalid_parameter = "INVALID_PARAMETER"
as_str operation_not_supported = "OPERATION_NOT_SUPPORTED"
as_str operation_failed = "OPERATION_FAILED"
as_str operation_timeout = "OPERATION_TIMEOUT"
as_str bad_request = "BAD_REQUEST"
as_str sync_cursor_regression = "SYNC_CURSOR_REGRESSION"
as_str unknown_error = "UNKNOWN_ERROR"
as_str http_bad_request = "BAD_REQUEST"
as_str http_unauthorized = "UNAUTHORIZED"
as_str http_forbidden = "FORBIDDEN"
as_str http_not_found = "NOT_FOUND"
as_str http_method_not_allowed = "METHOD_NOT_ALLOWED"
as_str http_request_timeout = "REQUEST_TIMEOUT"
as_str http_conflict = "CONFLICT"
as_str http_unprocessable_entity = "UNPROCESSABLE_ENTITY"
as_str http_too_many_requests = "TOO_MANY_REQUESTS"
as_str http_internal_server_error = "INTERNAL_SERVER_ERROR"
as_str http_bad_gateway = "BAD_GATEWAY"
as_str http_service_unavailable = "SERVICE_UNAVAILABLE"
as_str http_gateway_timeout = "GATEWAY_TIMEOUT"
