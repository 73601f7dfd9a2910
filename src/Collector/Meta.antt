-- ===== src/Collector/Meta.antt =====
-- What the collectors of collector/kubernetes read of the metadata of any object of Kubernetes.
use chaosblade_box_agent.Prelude.{String, true}
use chaosblade_box_agent.Prelude.Dict.{Dict}
use chaosblade_box_agent.Collector.{CommonInfo}

-- what is read of an `ObjectMeta`; the creation time is the text in the format RFC3339Nano
pub record ObjectMeta : Type 0 where
  pub uid : String
  pub name : String
  pub created_time : String
  pub labels : Dict String
  pub namespace : String

-- the `CommonInfo` of an object that is listed
unfoldable pub common_info : ObjectMeta → CommonInfo
common_info meta = record {
  uid = meta.uid;
  name = meta.name;
  created_time = meta.created_time;
  labels = meta.labels;
  exist = true;
  cid = "";
}
