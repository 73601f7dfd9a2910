-- ===== src/Collector/RoundTests.antt =====
-- The rounds of the collectors on small inputs.
use Prim.Native.Nat.{ℕ}
use native.Mathlib.Decide.{ℕ_discrete}
use chaosblade_box_agent.Prelude.{
  ◌≡◌, refl, inl, inr, arith, String, true, false, Option, none, some, List, [], ◌∷◌, ◌⊎◌, str_eq,
  eq_iff, Bool-cases,
}
use chaosblade_box_agent.Prelude.Dict.{Dict}
use chaosblade_box_agent.Collector.{ResourceIdentifier}
use chaosblade_box_agent.Collector.Increment.View.Exact.{Told}
use chaosblade_box_agent.Collector.Increment.View.Recovers.{Life, emptied}
use chaosblade_box_agent.Collector.Increment.View.Reports.{view_behind}
use chaosblade_box_agent.Collector.Increment.Delivered.{Report, Delivered}
use chaosblade_box_agent.Transport.Interceptor.{invoke as chain_invoke}
use chaosblade_box_agent.Transport.Response.{Response}
use chaosblade_box_agent.Transport.Client.{Wire, invoke}
use chaosblade_box_agent.Transport.Samples.{some_options, some_wire, some_uri}
use chaosblade_box_agent.Transport.Json.{Fields, field, end, str, obj}
use chaosblade_box_agent.Collector.Metric.{K8sBaseCollector, add_cids}
use chaosblade_box_agent.Collector.Increment.{collect, sweep, report_listed}
use chaosblade_box_agent.Collector.Increment.View.{receive_all}
use chaosblade_box_agent.Collector.Deployment.{
  Deployment, DeploymentInfo, deployment_info, deployment_resource,
}

String-discrete : Discrete String
String-discrete a b = elim (Bool-cases (str_eq a b)) [
  | inl same ↦ yes ((eq_iff a b).0 same)
  | inr other ↦ no (λ e. ground (arith, eq_iff a b))
]

Labels-discrete : Discrete (Dict String)
Labels-discrete = hlevel (String-discrete)

DeploymentInfo-discrete : Discrete DeploymentInfo
DeploymentInfo-discrete = hlevel (String-discrete, Labels-discrete, ℕ_discrete)

abbrev deployment_of : String → String → ℕ → Deployment
deployment_of uid name replicas = record {
  meta = record {
    uid = uid;
    name = name;
    created_time = "2025";
    labels = ("app", name) ∷ [];
    namespace = "default";
  };
  available_replicas = replicas;
  spec_replicas = replicas;
  observed_generation = 1;
  ready_replicas = replicas;
  updated_replicas = replicas;
  unavailable_replicas = 0;
  strategy_type = "RollingUpdate";
}

abbrev web : Deployment
web = deployment_of "w1" "web" 2

abbrev db : Deployment
db = deployment_of "d1" "db" 1

-- sums that tell the two deployments from all else
pick : {b : DeploymentInfo} → Dec (b ≡ deployment_info web) → Dec (b ≡ deployment_info db) → String
pick (yes p) d = "m1"
pick (no p) (yes q) = "m2"
pick (no p) (no q) = "m0"

told_sum : DeploymentInfo → Option String
told_sum info = some (
    pick (DeploymentInfo-discrete info (deployment_info web))
      (DeploymentInfo-discrete info (deployment_info db)))

told_sum-some : (info : DeploymentInfo) → (text : String) × (told_sum info ≡ some text)
unfolding told_sum
told_sum-some info = (
  pick (DeploymentInfo-discrete info (deployment_info web))
      (DeploymentInfo-discrete info (deployment_info db)),
  refl,
)

abbrev text_of : Option String → String
text_of none = ""
text_of (some text) = text

deployments_fresh :
    (d : Deployment)
    → ((deployment_info d).common.exist ≡ true) × ((deployment_info d).common.cid ≡ "")
unfolding deployment_info
deployments_fresh d = (refl, refl)

abbrev IsTold : Deployment → Type 0
IsTold = Told deployment_resource told_sum deployment_info deployments_fresh told_sum-some

-- the server knows the web deployment, and one that is gone
abbrev known : String → String → String → ResourceIdentifier
known uid cid md5 = record { uid = uid; cid = cid; md5 = md5; curr = false; name = uid }

abbrev old : Deployment
old = deployment_of "g1" "old" 3

abbrev old_cache : Dict ResourceIdentifier
old_cache =
    ("w1", known "w1" "c1" "m1")
    ∷ ("g1", known "g1" "c9" (text_of (told_sum (deployment_info old))))
    ∷ []

abbrev old_view : Dict DeploymentInfo
old_view = ("w1", deployment_info web) ∷ ("g1", deployment_info old) ∷ []

abbrev answer : Fields
answer = field "w1" (str "c1") (field "d1" (str "c2") end)

abbrev told_round : Dict ResourceIdentifier × List DeploymentInfo
told_round =
    collect deployment_resource told_sum (λ ids d. deployment_info d) (λ info. info) old_cache
      (web ∷ db ∷ [])

abbrev told_sweep : Dict ResourceIdentifier × List DeploymentInfo
told_sweep = sweep deployment_resource (add_cids told_round.0 answer).0

abbrev told_view : Dict DeploymentInfo
told_view =
    receive_all deployment_resource (receive_all deployment_resource old_view told_round.1)
      told_sweep.1

-- a server that answers the first report with the cids, and the second one with nothing
abbrev cids_response : Response
cids_response = record { code = 200; success = true; error = ""; result = obj answer }

abbrev cids_wire : Wire
cids_wire = record some_wire { decode_response = λ text. inr cids_response }

abbrev marshal_all : List DeploymentInfo → String ⊎ String
marshal_all _ = inl "[]"

abbrev deployments : K8sBaseCollector
deployments = record {
  resource_name = "deployments";
  identifiers = old_cache;
  second_identifiers = [];
  uri = some_uri;
  report_handler = "chaos/k8sDeployment";
}

abbrev both : List Deployment
both = web ∷ db ∷ []

abbrev told_report : Report
told_report =
    report_listed deployment_resource told_sum marshal_all some_options (λ ids d. deployment_info d)
      (λ info. info) cids_wire some_wire [] deployments both

-- behind a lost report the cache is empty, and the server has what it had
abbrev forgetful : K8sBaseCollector
forgetful = record deployments { identifiers = [] }

abbrev lost :
    Life deployment_resource told_sum deployment_info deployments_fresh told_sum-some marshal_all
      some_options forgetful old_view
lost = emptied forgetful old_view refl

abbrev late_report : Report
late_report =
    report_listed deployment_resource told_sum marshal_all some_options (λ ids d. deployment_info d)
      (λ info. info) cids_wire some_wire [] forgetful both

abbrev late_view : Dict DeploymentInfo
late_view =
    view_behind deployment_resource told_sum deployment_info marshal_all some_options cids_wire
      some_wire [] forgetful both answer old_view
