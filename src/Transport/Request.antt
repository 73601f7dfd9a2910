-- ===== src/Transport/Request.antt =====
-- transport/request.go: requests
pub mod Body
use chaosblade_box_agent.Prelude.{String, [], ◌∷◌, str_eq, if◌then◌else◌}
use chaosblade_box_agent.Prelude.Dict.{Dict, insert}
use chaosblade_box_agent.Options.{Options, program_name}

pub record Request : Type 0 where
  pub headers : Dict String
  pub params : Dict String

-- `AddHeader` and `AddParam` change the request in place and return it
unfoldable pub add_header : Request → String → String → Request
add_header request key value =
    if str_eq key "" then request else record request { headers = insert request.headers key value }

unfoldable pub add_param : Request → String → String → Request
add_param request key value =
    if str_eq key "" then request else record request { params = insert request.params key value }

-- `NewRequest`, with `options.Opts` as an argument
unfoldable pub new_request : Options → Request
unfolding add_header add_param insert
new_request opts =
    let request : Request = record { headers = []; params = [] } in
    let request = add_header request "FR" "C" in
    let request = add_header request "pid" opts.pid in
    let request = add_header request "uid" opts.uid in
    let request = if str_eq opts.cid "" then request else add_header request "cid" opts.cid in
    let request = add_header request "type" program_name in
    let request = add_header request "v" opts.version in
    let request = add_header request "cbv" opts.chaosblade_version in
    add_param request "port" opts.port

-- the two loops of `GetBody`: every entry of a map is written into the body
unfoldable pub copy_into : Dict String → Dict String → Dict String
copy_into body [] = body
copy_into body ((k, v) ∷ m) = copy_into (insert body k v) m

unfoldable pub get_body : Request → Dict String
unfolding copy_into
get_body request = copy_into (copy_into [] request.headers) request.params
