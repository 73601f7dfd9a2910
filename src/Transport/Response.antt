-- ===== src/Transport/Response.antt =====
-- transport/response.go
use chaosblade_box_agent.Prelude.{
  ℕ, ◌≡◌, refl, String, Bool, true, false, List, [], ◌∷◌, ◌==◌, if◌then◌else◌,
}
use chaosblade_box_agent.Transport.Json.{Json, null, str}
use chaosblade_box_agent.Transport.Format.{sprintf}

pub record Response : Type 0 where
  pub code : ℕ  -- int32
  pub success : Bool
  pub error : String
  pub result : Json

abbrev pub ok : ℕ
ok = 200

abbrev pub invalid_timestamp : ℕ
invalid_timestamp = 401

abbrev pub forbidden : ℕ
forbidden = 403

abbrev pub handler_not_found : ℕ
handler_not_found = 404

abbrev pub token_not_found : ℕ
token_not_found = 405

abbrev pub parameter_empty : ℕ
parameter_empty = 406

abbrev pub parameter_less : ℕ
parameter_less = 407

abbrev pub parameter_type_error : ℕ
parameter_type_error = 408

abbrev pub server_error : ℕ
server_error = 500

abbrev pub service_not_opened : ℕ
service_not_opened = 501

abbrev pub service_not_authorized : ℕ
service_not_authorized = 502

abbrev pub encode_error : ℕ
encode_error = 503

abbrev pub service_switch_error : ℕ
service_switch_error = 504

abbrev pub handler_closed : ℕ
handler_closed = 505

abbrev pub service_not_support : ℕ
service_not_support = 506

abbrev pub ctl_file_not_found : ℕ
ctl_file_not_found = 507

abbrev pub ctl_exec_failed : ℕ
ctl_exec_failed = 508

abbrev pub chaosblade_file_not_found : ℕ
chaosblade_file_not_found = 600

abbrev pub result_unmarshal_failed : ℕ
result_unmarshal_failed = 601

abbrev pub helm3_exec_error : ℕ
helm3_exec_error = 602

-- `Errors`; BladeBinPath is "/opt/chaosblade/blade"
abbrev pub errors : List (ℕ × String)
errors =
    (ok, "success")
    ∷ (invalid_timestamp, "invalid timestamp")
    ∷ (forbidden, "forbidden, err: %s")
    ∷ (handler_not_found, "request handler not found")
    ∷ (token_not_found, "access token not found")
    ∷ (parameter_empty, "`%s`: parameter is empty")
    ∷ (parameter_less, "`%s`: parameter less")
    ∷ (parameter_type_error, "`%s` parameter data error")
    ∷ (server_error, "server error, err: %s")
    ∷ (service_not_opened, "chaos service not opened")
    ∷ (service_not_authorized, "chaos service not authorized")
    ∷ (encode_error, "encode error, err: %s")
    ∷ (service_switch_error, "service switch error, err: %s")
    ∷ (handler_closed, "service handler closed")
    ∷ (service_not_support, "service not support: %s")
    ∷ (ctl_file_not_found, "`%s`: ctl file not found")
    ∷ (ctl_exec_failed, "exec ctl file failed: %s")
    ∷ (chaosblade_file_not_found, "/opt/chaosblade/blade, chaosblade file not found")
    ∷ (result_unmarshal_failed, "`%s`: exec result unmarshal failed, err: %s")
    ∷ (helm3_exec_error, "helm3 exec error, err: %s")
    ∷ []

-- `Errors[errCode]`, "" for a code that is not there
abbrev pub message : List (ℕ × String) → ℕ → String
message [] err_code = ""
message ((c, m) ∷ rest) err_code = if c == err_code then m else message rest err_code

-- `ReturnFail`
unfoldable pub return_fail : ℕ → List String → Response
unfolding sprintf
return_fail err_code args = record {
  code = err_code;
  success = false;
  error = sprintf (message errors err_code) false args;
  result = null;
}

unfoldable pub return_success : Response
return_success = record { code = ok; success = true; error = ""; result = str "success" }

unfoldable pub return_success_with_result : Json → Response
return_success_with_result result = record {
  code = ok;
  success = true;
  error = "";
  result = result;
}

return_fail_bracket :
    (return_fail parameter_empty ("cmd" ∷ [])).error ≡ "`[cmd]`: parameter is empty"
unfolding return_fail
return_fail_bracket = refl
