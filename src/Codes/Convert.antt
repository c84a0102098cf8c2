-- ===== src/Codes/Convert.antt =====
-- config/codes/code.go: the bounds of NewCode. oteltrpc/codes/codes.go: ConvertMetricsCodes, which
-- ranges over a Go map; the order in which it does is that of the association list here.
use go_opentelemetry.Prelude.{
  ℕ, ◌≤◌, ◌≡◌, String, List, eq_iff, ◌⊎◌, arith, length, length-take, take,
}
use go_opentelemetry.Utf8.{length-to_valid_utf8}
use go_opentelemetry.Codes.{
  new_code, legalize_description, code_type_success, code_type_exception, code_type_timeout,
  code_type_string,
}

-- A code that `NewCode` makes has one of the three types and at most 32 bytes of description.
new_code_bounds :
    (code code_type : String) (description : List ℕ)
    → let c = new_code code code_type description in
      ((c.type ≡ code_type_success)
        ⊎ ((c.type ≡ code_type_exception) ⊎ (c.type ≡ code_type_timeout)))
      × (length c.description ≤ 32)
unfolding new_code legalize_description code_type_string
new_code_bounds code code_type description = ground (
  arith,
  eq_iff code_type code_type_success,
  eq_iff code_type code_type_exception,
  eq_iff code_type code_type_timeout,
  eq_iff code_type "",
  length-to_valid_utf8 (take 32 description),
  length-to_valid_utf8 description,
  length-take 32 description,
)

-- `CodeTypeMappingDescription`
pub record CodeTypeMappingDescription : Type 0 where
  pub code_type : String
  pub description : List ℕ

-- `NewCodeTypeMappingDescription`
unfoldable pub new_code_type_mapping_description : String → List ℕ → CodeTypeMappingDescription
new_code_type_mapping_description code_type desc =
    let c = new_code "" code_type desc in record { code_type = c.type; description = c.description }
