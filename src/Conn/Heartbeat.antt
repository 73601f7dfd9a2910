-- ===== src/Conn/Heartbeat.antt =====
-- conn/heartbeat/heartbeat.go: the snapshots that the monitor reads.
use chaosblade_box_agent.Prelude.{Bool, Option}
use chaosblade_box_agent.Tools.LimitedList.{LimitedList, new_limited_list, put}

pub record HbSnapshot : Type 0 where
  pub success : Bool

-- `HBSnapshotList, _ = tools.NewLimitedSortList(26)`
unfoldable pub hb_snapshot_list : Option (LimitedList HbSnapshot)
unfolding new_limited_list
hb_snapshot_list = new_limited_list 26

-- `record`, on the list that the package holds
unfoldable pub record_heartbeat : LimitedList HbSnapshot → Bool → LimitedList HbSnapshot
record_heartbeat snapshots success = put snapshots (record { success = success })
