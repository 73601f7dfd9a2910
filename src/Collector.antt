-- ===== src/Collector.antt =====
-- collector/kubernetes: what the agent reports of its cluster, and the cache that keeps a report short.
mod Tests
mod RoundTests
mod KindTests
pub mod Metric
pub mod Increment
pub mod Meta
pub mod Common
pub mod Links
pub mod Service
pub mod Node
pub mod Ingress
pub mod VirtualNode
pub mod PodReport
pub mod Watchers
pub mod Deployment
pub mod ReplicaSet
pub mod Daemonset
pub mod Namespace
pub mod Pod
use chaosblade_box_agent.Prelude.{ℕ, String, Bool, List}
use chaosblade_box_agent.Prelude.Dict.{Dict}

-- `ResourceIdentifier`
pub record ResourceIdentifier : Type 0 where
  pub uid : String
  pub cid : String
  pub md5 : String
  pub curr : Bool
  pub name : String

-- `CommonInfo`
pub record CommonInfo : Type 0 where
  pub uid : String
  pub name : String
  pub created_time : String
  pub labels : Dict String
  pub exist : Bool
  pub cid : String

-- `PodInfo`, with the fields of `CommonInfo`; the restart count is an int32, kept modulo 2^32
pub record PodInfo : Type 0 where
  pub uid : String
  pub name : String
  pub created_time : String
  pub labels : Dict String
  pub exist : Bool
  pub cid : String
  pub namespace : String
  pub ip : String
  pub restart_count : ℕ
  pub state : String
  pub daemonset_uid : String
  pub daemonset_cid : String
  pub service_uid : String
  pub service_cid : String
  pub deployment_uid : String
  pub deployment_cid : String
  pub replica_set_uid : String
  pub replica_set_cid : String
