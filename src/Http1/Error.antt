-- ===== src/Http1/Error.antt =====
-- The errors of pcc_gateway/http1.py.
use pcc_gateway.Prelude.{ℕ, Result, err}
use pcc_gateway.Buffer.Segment.{BufferError}

-- The `code` argument of each `Http1Error` that the module raises.
pub data Code : Type 0 where
  bad_chunk_size bad_chunk_extension bad_header obs_fold bad_header_name bad_header_value : Code
  too_many_headers empty_request_line request_line_too_long bad_request_line bad_method : Code
  bad_target unsupported_target_form bad_version missing_host duplicate_host : Code
  ambiguous_length bad_content_length body_too_large ambiguous_framing : Code
  unsupported_transfer_coding unsupported_expectation connection_closed headers_too_large : Code
  chunk_line_too_long chunk_too_large bad_chunk_ending trailers_too_large : Code
  forbidden_trailer incomplete_request bad_response_header response_framing_owned : Code
  bad_response_trailer : Code

pub data Raised : Type 0 where
  -- `Http1Error(status, code, …)`
  http1_error : ℕ → Code → Raised
  -- a `ValueError` that is no `Http1Error`
  value_error : Raised
  buffer_error : BufferError → Raised
  -- no exception of the source: a loop of the model that was cut off
  out_of_fuel : Raised

abbrev pub reject {ℓ} : {A : Type ℓ} → ℕ → Code → Result Raised A
reject status code = err (http1_error status code)
