-- ===== src/Errors/Flare.antt =====
-- flare-core-base/src/error: flare_error.rs, localized.rs and builder.rs. `now` is the clock's time.
use flare_server_core.Prelude.{ℕ, Bool, false, Option, none, some, String, [], StringMap, insert}
use flare_server_core.Errors.Code.{
  ErrorCode, is_retryable, user_not_found, user_offline, internal_error, network_error,
}

pub record LocalizedError : Type 0 where
  pub code : ErrorCode
  pub reason : String
  pub details : Option String
  pub params : Option (StringMap String)
  pub timestamp : ℕ

-- The fields of `Localized` are those of its variant.
pub data FlareError : Type 0 where
  localized :
      (code : ErrorCode) (reason : String) (details : Option String)
      (params : Option (StringMap String)) (timestamp : ℕ)
      → FlareError
  system : String → FlareError
  io : String → FlareError

-- LocalizedError::new
unfoldable pub new_localized : ErrorCode → String → (now : ℕ) → LocalizedError
new_localized c r now = record {
  code = c;
  reason = r;
  details = none;
  params = none;
  timestamp = now;
}

-- LocalizedError::with_details
unfoldable pub with_details : LocalizedError → String → LocalizedError
with_details e d = record e { details = some d }

-- LocalizedError::with_params
unfoldable pub with_params : LocalizedError → StringMap String → LocalizedError
with_params e params = record e { params = some params }

unfoldable pub add_param : Option (StringMap String) → String → String → StringMap String
add_param none key value = insert key value []
add_param (some params) key value = insert key value params

-- LocalizedError::with_param
unfoldable pub with_param : LocalizedError → String → String → LocalizedError
unfolding add_param
with_param e key value = record e { params = some (add_param e.params key value) }

-- FlareError::localized
unfoldable pub flare_localized : ErrorCode → String → (now : ℕ) → FlareError
flare_localized c r now = localized c r none none now

-- The bodies of user_not_found and user_offline.
user_error : ErrorCode → String → String → (now : ℕ) → FlareError
user_error c r user_id now = localized c r none (some (insert "user_id" user_id [])) now

-- FlareError::user_not_found
unfoldable pub user_not_found_error : String → (now : ℕ) → FlareError
unfolding user_error
user_not_found_error user_id now = user_error user_not_found "用户不存在" user_id now

-- FlareError::user_offline
unfoldable pub user_offline_error : String → (now : ℕ) → FlareError
unfolding user_error
user_offline_error user_id now = user_error user_offline "用户离线" user_id now

-- FlareError::as_localized
unfoldable pub as_localized : FlareError → Option LocalizedError
as_localized (localized c r d p t) =
    some (record { code = c; reason = r; details = d; params = p; timestamp = t })
as_localized _ = none

-- FlareError::code
unfoldable pub code_of : FlareError → Option ErrorCode
code_of (localized c _ _ _ _) = some c
code_of _ = none

-- FlareError::reason
unfoldable pub reason_of : FlareError → String
reason_of (localized _ r _ _ _) = r
reason_of (system msg) = msg
reason_of (io msg) = msg

-- FlareError::to_localized
unfoldable pub to_localized : FlareError → (now : ℕ) → LocalizedError
unfolding new_localized
to_localized (localized c r d p t) now = record {
  code = c;
  reason = r;
  details = d;
  params = p;
  timestamp = t;
}
to_localized (system msg) now = new_localized internal_error msg now
to_localized (io msg) now = new_localized network_error msg now

-- FlareError::is_retryable
unfoldable pub is_retryable_error : FlareError → Bool
unfolding code_of
is_retryable_error e = elim (code_of e) [ none ↦ false | some c ↦ is_retryable c ]

-- `From<LocalizedError> for FlareError`
unfoldable pub from_localized : LocalizedError → FlareError
from_localized e = localized e.code e.reason e.details e.params e.timestamp

pub record ErrorBuilder : Type 0 where
  pub code : ErrorCode
  pub reason : String
  pub details : Option String
  pub params : Option (StringMap String)

-- ErrorBuilder::new
unfoldable pub new_builder : ErrorCode → String → ErrorBuilder
new_builder c r = record { code = c; reason = r; details = none; params = none }

-- ErrorBuilder::details
unfoldable pub set_details : ErrorBuilder → String → ErrorBuilder
set_details b d = record b { details = some d }

-- ErrorBuilder::param
unfoldable pub set_param : ErrorBuilder → String → String → ErrorBuilder
unfolding add_param
set_param b key value = record b { params = some (add_param b.params key value) }

-- ErrorBuilder::build
unfoldable pub build : ErrorBuilder → (now : ℕ) → LocalizedError
build b now = record {
  code = b.code;
  reason = b.reason;
  details = b.details;
  params = b.params;
  timestamp = now;
}

-- ErrorBuilder::build_error
unfoldable pub build_error : ErrorBuilder → (now : ℕ) → FlareError
build_error b now = localized b.code b.reason b.details b.params now
