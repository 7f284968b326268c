-- ===== src/Errors/Hop.antt =====
-- What an error keeps on its way through an `ErrorDetail` or a gRPC status and back.
use flare_server_core.Prelude.{
  ℕ, ◌≡◌, ◌↔◌, ◌⊎◌, refl, true, not, Option, none, some, String, if◌then◌else◌, unwrap_or, str_eq,
  arith,
}
use flare_server_core.Prelude.Int.{pos}
use flare_server_core.Errors.Code.{
  ErrorCode, as_u32, is_retryable, internal_error, network_error, general_error,
}
use flare_server_core.Errors.Numbers.{from_u32}
use flare_server_core.Errors.CodeLaws.{from_u32_iff}
use flare_server_core.Errors.Grpc.{
  map_error_code_to_grpc, unavailable, code_resource_exhausted, failed_precondition, unknown,
}
use flare_server_core.Errors.Flare.{FlareError, localized, system, io, code_of, is_retryable_error}
use flare_server_core.Errors.Proto.{
  ErrorDetail, as_i32, max_zero, to_error_detail, from_error_detail, is_ok_code, is_err, status_of,
  status_code, from_status, decode_error_detail, code_of_status,
}

as_i32-as_u32 : (c : ErrorCode) → as_i32 (as_u32 c) ≡ pos (as_u32 c)
as_i32-as_u32 ErrorCode.connection_failed = refl
as_i32-as_u32 _ = refl

code_of_detail :
    (c : ErrorCode) (d : ErrorCode) → unwrap_or d (from_u32 (max_zero (as_i32 (as_u32 c)))) ≡ c
code_of_detail c d = rw (as_i32-as_u32 c, (from_u32_iff (as_u32 c) c).1 refl)

abbrev pub without_empty : Option String → Option String
without_empty none = none
without_empty (some d) = if str_eq d "" then none else some d

unwrap_or-without_empty :
    (d : Option String)
    → (if str_eq (unwrap_or "" d) "" then none else some (unwrap_or "" d)) ≡ without_empty d
unwrap_or-without_empty none = refl
unwrap_or-without_empty (some d) = refl

-- What is left of an error in an `ErrorDetail`.
abbrev pub restored : FlareError → (now : ℕ) → FlareError
restored (localized c r d p t) now = localized c r (without_empty d) none now
restored (system msg) now = localized internal_error "internal" (without_empty (some msg)) none now
restored (io msg) now = localized network_error "network" (without_empty (some msg)) none now

-- An error that is sent as an `ErrorDetail` and read back is retryable exactly where the error sent
-- is. A localized error keeps its code, its reason and its details, except for an empty text; its
-- parameters and its time are lost. The other errors come back as localized ones of their code.
pub from_error_detail-to_error_detail :
    (e : FlareError) (track : String) (now : ℕ)
    → (from_error_detail (to_error_detail e track) now ≡ restored e now)
      × (is_retryable_error (from_error_detail (to_error_detail e track) now)
          ≡ is_retryable_error e)
unfolding from_error_detail to_error_detail code_of is_retryable_error is_retryable
from_error_detail-to_error_detail (localized c r d p t) track now =
    rw (code_of_detail c general_error, unwrap_or-without_empty d) (refl, refl)
from_error_detail-to_error_detail (system msg) track now =
    rw (code_of_detail internal_error general_error) (refl, refl)
from_error_detail-to_error_detail (io msg) track now =
    rw (code_of_detail network_error general_error) (refl, refl)

-- The status of an error is never `Ok`; its details decode to what `to_error_detail` made, where
-- the decoder inverts the encoder.
pub status_of-is_err :
    {B : Type 0} (encode : ErrorDetail → B) (decode : B → Option ErrorDetail) (e : FlareError)
    → ((d : ErrorDetail) → decode (encode d) ≡ some d)
    → (is_err (status_of encode e) ≡ true)
      × (decode_error_detail decode (status_of encode e) ≡ some (to_error_detail e ""))
unfolding is_err status_of map_error_code_to_grpc decode_error_detail
status_of-is_err encode decode (localized c r d p t) inverse = (not_ok c, inverse _)
  where
    not_ok : (c : ErrorCode) → not (is_ok_code (map_error_code_to_grpc c)) ≡ true
    not_ok ErrorCode.connection_failed = refl
    not_ok _ = refl
status_of-is_err encode decode (system msg) inverse = (refl, inverse _)
status_of-is_err encode decode (io msg) inverse = (refl, inverse _)

-- Sent as a gRPC status and read back, an error keeps the gRPC code, unless it is
-- `FailedPrecondition`, which becomes `Unknown`; what comes back is retryable exactly where this
-- code is `Unavailable` or `ResourceExhausted`, whatever the error sent was.
pub from_status-status_of :
    {B : Type 0} (encode : ErrorDetail → B) (e : FlareError) (now : ℕ)
    → let back = from_status (status_of encode e) now in
      ((status_code back ≡ status_code e)
        ⊎ ((status_code e ≡ failed_precondition) × (status_code back ≡ unknown)))
      × ((is_retryable_error back ≡ true)
          ↔ ((status_code e ≡ unavailable) ⊎ (status_code e ≡ code_resource_exhausted)))
unfolding from_status status_of is_retryable_error code_of map_error_code_to_grpc is_retryable
from_status-status_of encode (localized c r d p t) now = kept c
  where
    kept :
        (c : ErrorCode)
        → let k = map_error_code_to_grpc c in
          ((map_error_code_to_grpc (code_of_status k) ≡ k)
            ⊎ ((k ≡ failed_precondition) × (map_error_code_to_grpc (code_of_status k) ≡ unknown)))
          × ((is_retryable (code_of_status k) ≡ true)
              ↔ ((k ≡ unavailable) ⊎ (k ≡ code_resource_exhausted)))
    kept ErrorCode.connection_failed = ground arith
    kept _ = ground arith
from_status-status_of encode (system msg) now = ground arith
from_status-status_of encode (io msg) now = ground arith
