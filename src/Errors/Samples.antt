-- ===== src/Errors/Samples.antt =====
-- Errors of the crate base, and what their conversions give.
use flare_server_core.Prelude.{◌≡◌, ◌↔◌, ◌⊎◌, true, some, []}
use flare_server_core.Errors.Code.{as_u32, connection_timeout, sync_cursor_regression}
use flare_server_core.Errors.Numbers.{from_u32}
use flare_server_core.Errors.CodeLaws.{from_u32_iff}
use flare_server_core.Errors.Grpc.{
  failed_precondition, unknown, unavailable, code_resource_exhausted,
}
use flare_server_core.Errors.Flare.{FlareError, localized, is_retryable_error}
use flare_server_core.Errors.Proto.{
  ErrorDetail, to_error_detail, from_error_detail, status_of, status_code, from_status,
}
use flare_server_core.Errors.Hop.{
  restored, from_error_detail-to_error_detail, from_status-status_of,
}

abbrev regression : FlareError
regression = localized sync_cursor_regression "behind" (some "cursor 7") (some []) 3

from_u32_iff_example :
    (from_u32 1001 ≡ some connection_timeout) ↔ (1001 ≡ as_u32 connection_timeout)
from_u32_iff_example = from_u32_iff 1001 connection_timeout

from_error_detail-to_error_detail_example :
    (from_error_detail (to_error_detail regression "t") 9 ≡ restored regression 9)
    × (is_retryable_error (from_error_detail (to_error_detail regression "t") 9)
        ≡ is_retryable_error regression)
from_error_detail-to_error_detail_example = from_error_detail-to_error_detail regression "t" 9

from_status-status_of_example :
    let back = from_status (status_of (λ (d : ErrorDetail). d) regression) 9 in
    ((status_code back ≡ status_code regression)
      ⊎ ((status_code regression ≡ failed_precondition) × (status_code back ≡ unknown)))
    × ((is_retryable_error back ≡ true) ↔ (
        (status_code regression ≡ unavailable)
        ⊎ (status_code regression ≡ code_resource_exhausted)))
from_status-status_of_example = from_status-status_of (λ (d : ErrorDetail). d) regression 9
