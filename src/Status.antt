-- ===== src/Status.antt =====
-- include/bencode/bencode.h (bencode_status) and src/status.c.
use bencode.Prelude.{String}

-- The codes of `bencode_status` other than `BENCODE_OK`.
pub data Error : Type 0 where
  invalid_arg truncated unexpected_byte integer_overflow integer_format : Error
  string_length dict_unsorted dict_duplicate dict_bad_key nesting_too_deep : Error
  nomem io user_aborted dict_missing_value : Error

-- A call that returns a `bencode_status` and writes its other results through pointers.
pub data Result {ℓ} (A : Type ℓ) : Type ℓ where
  ok : A → Result A
  err : Error → Result A

abbrev pub Status : Type 0
Status = Result (Unit {0})

-- bencode_status_string, less the arm for a number that is no code.
unfoldable pub status_string : Status → String
status_string (ok _) = "ok"
status_string (err invalid_arg) = "invalid argument"
status_string (err truncated) = "input truncated mid-value"
status_string (err unexpected_byte) = "unexpected byte where a value was expected"
status_string (err integer_overflow) = "integer outside int64_t range"
status_string (err integer_format) = "malformed integer (leading zero, -0, or empty)"
status_string (err string_length) = "byte-string length exceeds remaining input"
status_string (err dict_unsorted) = "dictionary keys not in lexicographic order"
status_string (err dict_duplicate) = "dictionary contains duplicate key"
status_string (err dict_bad_key) = "dictionary key is not a byte string"
status_string (err nesting_too_deep) = "nesting depth exceeded limit"
status_string (err nomem) = "memory allocation failed"
status_string (err io) = "I/O error"
status_string (err user_aborted) = "parse aborted by caller"
status_string (err dict_missing_value) = "dictionary key has no matching value"
