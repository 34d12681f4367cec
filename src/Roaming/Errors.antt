-- ===== src/Roaming/Errors.antt =====
-- backend/src/evagg/ocpi/errors.py: the status codes of OCPI, and what an exception is answered with.
use evaggregator.Base.{Option, none, some, ℕ}

pub data OcpiErrorCode : Type 0 where
  success invalid_parameters not_enough_information : OcpiErrorCode
  unknown_location_code unknown_token_code unknown_tariff_code unknown_session_code : OcpiErrorCode
  generic_server_error unable_to_use_client_api : OcpiErrorCode
  unsupported_version_code no_matching_endpoints : OcpiErrorCode

unfoldable pub status_code : OcpiErrorCode → ℕ
status_code success = 1000
status_code invalid_parameters = 2001
status_code not_enough_information = 2002
status_code unknown_location_code = 2003
status_code unknown_token_code = 2004
status_code unknown_tariff_code = 2005
status_code unknown_session_code = 2006
status_code generic_server_error = 3000
status_code unable_to_use_client_api = 3001
status_code unsupported_version_code = 3002
status_code no_matching_endpoints = 3003

-- `HTTP_STATUS_BY_ERROR_CODE`, which has no entry for success.
unfoldable pub http_status_by_error_code : OcpiErrorCode → Option ℕ
http_status_by_error_code success = none
http_status_by_error_code invalid_parameters = some 400
http_status_by_error_code not_enough_information = some 400
http_status_by_error_code unknown_location_code = some 404
http_status_by_error_code unknown_token_code = some 401
http_status_by_error_code unknown_tariff_code = some 404
http_status_by_error_code unknown_session_code = some 404
http_status_by_error_code generic_server_error = some 500
http_status_by_error_code unable_to_use_client_api = some 500
http_status_by_error_code unsupported_version_code = some 406
http_status_by_error_code no_matching_endpoints = some 404

abbrev pub or_500 : Option ℕ → ℕ
or_500 none = 500
or_500 (some n) = n

unfoldable pub http_status_of : OcpiErrorCode → ℕ
unfolding http_status_by_error_code
http_status_of c = or_500 (http_status_by_error_code c)

-- An exception of the backend: an `OcpiError`, one of the four that a bad request raises, or another.
pub data InternalException : Type 0 where
  ocpi_error : OcpiErrorCode → InternalException
  validation_error value_error type_error key_error : InternalException
  other_exception : ℕ → InternalException

unfoldable pub map_exception_to_ocpi_error : InternalException → OcpiErrorCode
map_exception_to_ocpi_error (ocpi_error c) = c
map_exception_to_ocpi_error validation_error = invalid_parameters
map_exception_to_ocpi_error value_error = invalid_parameters
map_exception_to_ocpi_error type_error = invalid_parameters
map_exception_to_ocpi_error key_error = invalid_parameters
map_exception_to_ocpi_error (other_exception e) = generic_server_error
