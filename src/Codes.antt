-- ===== src/Codes.antt =====
-- config/codes: the mapping of return codes. Descriptions are bytes, all else is compared as text.
pub mod Mapping
pub mod Convert
use go_opentelemetry.Prelude.{
  ℕ, Bool, true, false, String, List, [], ◌∷◌, ltb, length, take, str_eq, if◌then◌else◌, ◌||◌,
}
use go_opentelemetry.Utf8.{to_valid_utf8}

abbrev pub description_max_length : ℕ
description_max_length = 32

unfoldable pub legalize_description : List ℕ → List ℕ
legalize_description description = to_valid_utf8 (
    if ltb description_max_length (length description)
    then take description_max_length description
    else description)

-- `CodeType` is a string type with three values of its own.
abbrev pub code_type_success : String
code_type_success = "success"

abbrev pub code_type_exception : String
code_type_exception = "exception"

abbrev pub code_type_timeout : String
code_type_timeout = "timeout"

-- `CodeType.String`
unfoldable pub code_type_string : String → String
code_type_string c = if str_eq c "" then "success" else c

pub record Code : Type 0 where
  pub code : String
  pub type : String
  pub description : List ℕ
  pub service : String
  pub method : String

-- `newCode`
abbrev pub plain_code : String → String → List ℕ → Code
plain_code code code_type desc = record {
  code = code;
  type = code_type;
  description = desc;
  service = "";
  method = "";
}

-- `NewCode`
unfoldable pub new_code : String → String → List ℕ → Code
new_code code code_type description =
    let desc = legalize_description description in
    if str_eq code_type code_type_success
      || (str_eq code_type code_type_exception || str_eq code_type code_type_timeout)
    then plain_code code (code_type_string code_type) desc
    else plain_code code (code_type_string code_type_success) desc

-- `code=0` and `code!=0`
abbrev pub success_code_desc : Code
success_code_desc = plain_code "" code_type_success (b'c' ∷ b'o' ∷ b'd' ∷ b'e' ∷ b'=' ∷ b'0' ∷ [])

abbrev pub exception_code_desc : Code
exception_code_desc =
    plain_code "" code_type_exception (b'c' ∷ b'o' ∷ b'd' ∷ b'e' ∷ b'!' ∷ b'=' ∷ b'0' ∷ [])

-- `defaultCodeTypeFunc`
unfoldable pub default_code_type_func : String → String → String → Code
default_code_type_func code service method =
    if str_eq code "0" || str_eq code "" then success_code_desc else exception_code_desc
