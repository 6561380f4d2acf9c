-- ===== src/Python.antt =====
-- What the code takes from the Unicode tables, the JSON parser, SHA-256 and pydantic's conversions:
-- functions that are parameters, with the facts that the properties rely on.
use ai_saga.Common.{◌≡◌, Option, some, Text}
use ai_saga.Common.Int.{ℤ}
use ai_saga.Json.{Json, num, str}

pub record Python : Type 0 where
  -- `str.lower`
  pub lower : Text → Text
  -- `json.loads`, with `none` for a `JSONDecodeError`
  pub loads : Text → Option Json
  -- `str` of a parsed value that is not a text
  pub to_str : Json → Text
  -- pydantic's conversion to a field of type `int`, with `none` for a `ValidationError`
  pub as_int : Json → Option ℤ
  pub as_int-num : (z : ℤ) → as_int (num z) ≡ some z
  -- the hex digest of SHA-256 of the JSON text of `{"action": action}`
  pub payload_digest : Text → Text

-- `str(value)`
unfoldable pub display : Python → Json → Text
display py (str t) = t
display py value = py.to_str value
