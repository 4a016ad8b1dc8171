-- ===== src/Http1/Encoder.antt =====
-- `Http1ResponseEncoder` of pcc_gateway/http1.py.
use pcc_gateway.Prelude.{
  ℕ, ◌+◌, ◌/◌, ◌%◌, Bool, true, false, not, ◌&&◌, ◌||◌, List, [], ◌∷◌, ◌++◌, Option, none, some,
  Text, codes, text_in, lower, decimal, hex, ltb, ◌==◌, between, if◌then◌else◌, is_empty, length, ℤ,
  pos, negsuc, Result, ok, err, ◌>>=◌, ◌>>◌, raise_if,
}
use pcc_gateway.Http1.Error.{
  Raised, http1_error, value_error, reject, bad_response_header, response_framing_owned,
  bad_response_trailer,
}
use pcc_gateway.Http1.Bytes.{is_token, contains_bad_value_byte, latin1_bytes}
use pcc_gateway.Http1.Head.{Headers}

-- The UTF-8 bytes of one character; `none` is a surrogate, a `UnicodeError`.
unfoldable pub utf8_char : ℕ → Option Text
utf8_char c =
    if ltb c 128
    then some (c ∷ [])
    else if ltb c 2048
    then some ((192 + c / 64) ∷ (128 + c % 64) ∷ [])
    else if between 55296 57343 c
    then none
    else if ltb c 65536
    then some ((224 + c / 4096) ∷ (128 + c / 64 % 64) ∷ (128 + c % 64) ∷ [])
    else some
        ((240 + c / 262144) ∷ (128 + c / 4096 % 64) ∷ (128 + c / 64 % 64) ∷ (128 + c % 64) ∷ [])

-- `text.encode("utf-8")`
unfoldable pub utf8 : Text → Option Text
unfolding utf8_char
utf8 [] = some []
utf8 (c ∷ cs) = elim (utf8_char c) [
  | none ↦ none
  | some first ↦ elim (utf8 cs) [ none ↦ none | some rest ↦ some (first ++ rest) ]
]

-- `_validate_output_header`; the result is the two encodings, which the callers compute once more.
unfoldable pub validate_output_header : Text → Text → Result Raised (Text × Text)
unfolding utf8
validate_output_header name value = elim (utf8 name) [
  | none ↦ reject 500 bad_response_header
  | some name_bytes ↦ elim (latin1_bytes value) [
    | err e ↦ err e
    | ok value_bytes ↦
        if not (is_token name_bytes) || contains_bad_value_byte value_bytes
        then reject 500 bad_response_header
        else ok (name_bytes, value_bytes)
  ]
]

-- `_REASONS.get(status, "")`
unfoldable pub reason : ℕ → Text
reason status =
    if status == 100
    then codes "Continue"
    else if status == 200
    then codes "OK"
    else if status == 201
    then codes "Created"
    else if status == 204
    then codes "No Content"
    else if status == 301
    then codes "Moved Permanently"
    else if status == 302
    then codes "Found"
    else if status == 304
    then codes "Not Modified"
    else if status == 400
    then codes "Bad Request"
    else if status == 404
    then codes "Not Found"
    else if status == 405
    then codes "Method Not Allowed"
    else if status == 413
    then codes "Content Too Large"
    else if status == 417
    then codes "Expectation Failed"
    else if status == 431
    then codes "Request Header Fields Too Large"
    else if status == 500
    then codes "Internal Server Error"
    else if status == 502
    then codes "Bad Gateway"
    else if status == 503
    then codes "Service Unavailable"
    else if status == 504
    then codes "Gateway Timeout"
    else []

abbrev pub crlf : Text
crlf = 13 ∷ 10 ∷ []

abbrev pub framing_names : List Text
framing_names = codes "content-length" ∷ codes "transfer-encoding" ∷ codes "connection" ∷ []

abbrev pub trailer_names : List Text
trailer_names =
    codes "content-length" ∷ codes "transfer-encoding" ∷ codes "connection" ∷ codes "host" ∷ []

-- The lines of the fields; a name among `owned` raises `refused`.
unfoldable pub field_lines : List Text → Raised → Headers → Result Raised (List Text)
unfolding validate_output_header
field_lines owned refused [] = ok []
field_lines owned refused ((name, value) ∷ rest) = do
  encoded ← validate_output_header name value
  raise_if (text_in (lower name) owned) refused
  lines ← field_lines owned refused rest
  ok ((encoded.0 ++ codes ": " ++ encoded.1) ∷ lines)

-- The lines, each with its end, and the empty line.
unfoldable pub block : List Text → Text
block [] = crlf
block (line ∷ lines) = line ++ crlf ++ block lines

unfoldable pub length_lines : ℤ → List Text
length_lines (pos n) = (codes "Content-Length: " ++ decimal n) ∷ []
length_lines (negsuc n) = []

unfoldable pub status_line : ℕ → Text
unfolding reason
status_line status = codes "HTTP/1.1 " ++ decimal status ++ codes " " ++ reason status

-- The lines of `head`, before they are joined.
unfoldable pub head_lines : ℕ → Headers → ℤ → Bool → Bool → Result Raised (List Text)
unfolding field_lines length_lines status_line
head_lines status headers content_length chunked keep_alive = do
  fields ← field_lines framing_names (http1_error 500 response_framing_owned) headers
  ok (
      status_line status
      ∷ (fields
          ++ length_lines content_length
          ++ (if chunked then codes "Transfer-Encoding: chunked" ∷ [] else [])
          ++ (if keep_alive then [] else codes "Connection: close" ∷ [])))

unfoldable pub is_fixed : ℤ → Bool
is_fixed (pos n) = true
is_fixed (negsuc n) = false

-- `Http1ResponseEncoder.head`
unfoldable pub head : ℕ → Headers → ℤ → Bool → Bool → Result Raised Text
unfolding head_lines block is_fixed
head status headers content_length chunked keep_alive =
    if is_fixed content_length && chunked
    then err value_error
    else do lines ← head_lines status headers content_length chunked keep_alive; ok (block lines)

-- `Http1ResponseEncoder.chunk`
unfoldable pub chunk : Text → Text
chunk bytes = if is_empty bytes then [] else hex (length bytes) ++ crlf ++ bytes ++ crlf

-- `Http1ResponseEncoder.end_chunks`
unfoldable pub end_chunks : Headers → Result Raised Text
unfolding field_lines block
end_chunks trailers = do
  lines ← field_lines trailer_names (http1_error 500 bad_response_trailer) trailers
  ok (block (codes "0" ∷ lines))
