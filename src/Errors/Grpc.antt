-- ===== src/Errors/Grpc.antt =====
-- flare-core-base/src/error/grpc.rs: the gRPC code of an error code.
use flare_server_core.Errors.Code.{
  ErrorCode, connection_timeout, connection_limit_exceeded, authentication_failed,
  authentication_expired, authentication_invalid, authentication_required, permission_denied,
  token_invalid, token_expired, message_format_error, invalid_command, message_not_found,
  message_rate_limit_exceeded, user_not_found, user_quota_exceeded, internal_error,
  service_unavailable, resource_exhausted, configuration_error, database_error, network_error,
  network_timeout, network_unreachable, network_connection_lost, serialization_error,
  deserialization_error, encoding_error, invalid_parameter, operation_timeout,
  sync_cursor_regression,
}

-- The codes of `tonic::Code` that the crates name.
pub data Code : Type 0 where
  code_ok unknown invalid_argument deadline_exceeded code_not_found code_permission_denied : Code
  code_resource_exhausted failed_precondition code_internal unavailable unauthenticated : Code
  already_exists : Code

unfoldable pub map_error_code_to_grpc : ErrorCode → Code
map_error_code_to_grpc authentication_failed = unauthenticated
map_error_code_to_grpc authentication_expired = unauthenticated
map_error_code_to_grpc authentication_invalid = unauthenticated
map_error_code_to_grpc authentication_required = unauthenticated
map_error_code_to_grpc token_invalid = unauthenticated
map_error_code_to_grpc token_expired = unauthenticated
map_error_code_to_grpc permission_denied = code_permission_denied
map_error_code_to_grpc invalid_parameter = invalid_argument
map_error_code_to_grpc message_format_error = invalid_argument
map_error_code_to_grpc invalid_command = invalid_argument
map_error_code_to_grpc user_not_found = code_not_found
map_error_code_to_grpc message_not_found = code_not_found
map_error_code_to_grpc resource_exhausted = code_resource_exhausted
map_error_code_to_grpc connection_limit_exceeded = code_resource_exhausted
map_error_code_to_grpc user_quota_exceeded = code_resource_exhausted
map_error_code_to_grpc message_rate_limit_exceeded = code_resource_exhausted
map_error_code_to_grpc service_unavailable = unavailable
map_error_code_to_grpc network_error = unavailable
map_error_code_to_grpc network_unreachable = unavailable
map_error_code_to_grpc network_connection_lost = unavailable
map_error_code_to_grpc connection_timeout = deadline_exceeded
map_error_code_to_grpc network_timeout = deadline_exceeded
map_error_code_to_grpc operation_timeout = deadline_exceeded
map_error_code_to_grpc internal_error = code_internal
map_error_code_to_grpc database_error = code_internal
map_error_code_to_grpc configuration_error = code_internal
map_error_code_to_grpc serialization_error = code_internal
map_error_code_to_grpc deserialization_error = code_internal
map_error_code_to_grpc encoding_error = code_internal
map_error_code_to_grpc sync_cursor_regression = failed_precondition
map_error_code_to_grpc _ = unknown
