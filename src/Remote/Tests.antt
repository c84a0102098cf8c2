-- ===== src/Remote/Tests.antt =====
-- A configurator with a CodeConverter and another function. A configuration is a list of codes here.
use go_opentelemetry.Prelude.{
  ◌≡◌, refl, Bool, true, false, Option, none, some, List, [], ◌∷◌, ◌++◌, arith,
}
use mathlib.Core.List.{Perm}
use mathlib.Core.List.Perm
use go_opentelemetry.Codes.{Code}
use go_opentelemetry.Codes.Mapping.{
  RemoteCode, mapping, new_code_converter, or_else, or_default, first, applies, with_code,
  remote_codes,
}
use go_opentelemetry.Remote.{
  Event, syncs, registers, failed, answered, run, sync, new_remote_configurator,
  register_config_apply_func, last_call, apply_all,
}
use go_opentelemetry.Remote.Current.{Follows, registered_follow}
use go_opentelemetry.Remote.Codes.{replay, codes_follow}

abbrev remote_code : RemoteCode
remote_code = record {
  code = "21";
  type = "exception";
  description = [];
  service = "users";
  method = "";
}

abbrev local_code : Code
local_code = record {
  code = "21";
  type = "success";
  description = [];
  service = "";
  method = "Pay";
}

-- A dial fails; then a configuration comes between the two registrations, and a call fails.
abbrev events : List (Event (List RemoteCode))
events =
    syncs false failed
    ∷ registers
    ∷ syncs true (answered (some (remote_code ∷ [])))
    ∷ registers
    ∷ syncs true failed
    ∷ []

registered_follow_example :
    Follows
      (some (remote_code ∷ []))
      (last_call 1 (run events (new_remote_configurator 0 true).0).applied)
unfolding run sync register_config_apply_func new_remote_configurator apply_all
registered_follow_example = registered_follow 0 true events 1 (omega arith)

abbrev unsorted : (Code → Code → Bool) → List Code → List Code
unsorted lt cs = cs

abbrev codes_in : Option (List RemoteCode) → List RemoteCode
codes_in none = []
codes_in (some cs) = cs

codes_follow_example :
    (locals : List Code) × Perm locals (local_code ∷ [])
    × (mapping
          (replay unsorted codes_in 0
            (run events (new_remote_configurator 0 true).0).applied
            (new_code_converter unsorted (local_code ∷ []) none))
          "21"
          "users"
          "Get"
        ≡ or_else
            (first
              (applies "users" "Get")
              (with_code "21" (locals ++ remote_codes (remote_code ∷ []))))
            (or_default none "21" "users" "Get"))
unfolding run sync register_config_apply_func new_remote_configurator apply_all
codes_follow_example =
    codes_follow unsorted codes_in (λ cs. Perm.refl cs) (local_code ∷ []) none 0 true events 0
      (remote_code ∷ []) "21" "users" "Get" (omega arith) refl
