-- ===== src/Library.antt =====
-- What the program calls of Python's library and of PyYAML, as far as it is not modelled in Base.
use aicti.Base.{ℕ, String, Bool, Option}
use aicti.Value.{Value}

-- `str.lower`; `\d` of `re` on one character; `str(value)`; `json.dumps` with sorted keys; `hashlib.sha256` in hexadecimal digits of a
-- text in UTF-8; `yaml.safe_load`, which is `none` where it raises `YAMLError`; and `yaml.safe_dump`.
pub record Library : Type 0 where
  pub lower : String → String
  pub is_decimal : ℕ → Bool
  pub str : Value → String
  pub dumps : Value → String
  pub sha256 : String → String
  pub safe_load : String → Option Value
  pub safe_dump : Value → String
