-- ===== src/Transport/Http.antt =====
-- pkg/http/http.go: the channel to the server over HTTP. The encoding and decoding of JSON and the
-- HTTP client of Go's library are parameters.
use Prim.Native.String.{◌++◌ as str_append}
use chaosblade_box_agent.Prelude.{ℕ, ◌==◌, String, ◌⊎◌, inl, inr, if◌then◌else◌}
use chaosblade_box_agent.Prelude.{Option, none, some}
use chaosblade_box_agent.Prelude.Dict.{Dict}
use chaosblade_box_agent.Prelude.Strconv.{format_int}
use chaosblade_box_agent.Transport.Request.{Request, get_body}
use chaosblade_box_agent.Transport.Uri.{Uri}

-- an answer of the HTTP client: its status, what could be read of its body, and nil or an error
pub record HttpResponse : Type 0 where
  pub status_code : ℕ
  pub body : String
  pub read_error : Option String

-- `HttpClient`: its URL, what `json.Unmarshal` leaves in a new request and `json.Marshal` makes of a
-- body, errors passed over, and what a POST of a text gives, an error where no request
-- can be made or sent
pub record HttpClient : Type 0 where
  pub url : String
  pub unmarshal : String → Request
  pub marshal : Dict String → String
  pub post : String → String → String ⊎ HttpResponse

-- `DoInvoker`: the text of the answer, or an error
unfoldable pub do_invoker : HttpClient → Uri → String → String ⊎ String
unfolding get_body format_int
do_invoker hc uri json_param =
    let req_body = hc.marshal (get_body (hc.unmarshal json_param)) in
    let called = str_append "direct http call " uri.handler_name in
    elim (hc.post (str_append hc.url (str_append "/" uri.handler_name)) req_body) [
      | inl err ↦ inr err
      | inr response ↦
          if response.status_code == 200 then inl response.body else elim response.read_error [
            | some err ↦ inr (str_append called " and read message from response failed")
            | none ↦ inr (
                str_append called (
                  str_append " failed, code: " (
                    str_append (format_int response.status_code)
                      (str_append ", body: " response.body))))
          ]
    ]
