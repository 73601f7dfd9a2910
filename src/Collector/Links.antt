-- ===== src/Collector/Links.antt =====
-- collector/kubernetes/common.go and pod.go: the links from a pod to what selects it. The match of a
-- selector of Kubernetes with labels is a parameter.
use chaosblade_box_agent.Prelude.{String, Bool, ◌&&◌, str_eq, if◌then◌else◌}
use chaosblade_box_agent.Prelude.Dict.{Dict}
use chaosblade_box_agent.Collector.{PodInfo}

-- `addLink`
unfoldable pub add_link : PodInfo → String → String → PodInfo
add_link info resource uid =
    if str_eq resource "services"
    then record info { service_uid = uid }
    else if str_eq resource "deployments"
    then record info { deployment_uid = uid }
    else if str_eq resource "replicasets"
    then record info { replica_set_uid = uid }
    else if str_eq resource "daemonsets"
    then record info { daemonset_uid = uid }
    else info

-- `selectorMatch`
unfoldable pub selector_match : (Dict String → Bool) → String → String → String → PodInfo → PodInfo
unfolding add_link
selector_match selector namespace resource uid info =
    if str_eq namespace info.namespace && selector info.labels
    then add_link info resource uid
    else info
