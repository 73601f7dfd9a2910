-- ===== src/Collector/Increment/View.antt =====
-- What a server can rebuild of the resources from the reports: an abstract view that holds each
-- resource in full under its uid, and how the incremental reports keep it exact.
pub mod Follows
pub mod Exact
pub mod Reports
pub mod Fits
pub mod Recovers
use chaosblade_box_agent.Prelude.{
  ◌≡◌, ◌≢◌, refl, ap, sym, ◌∙◌, ◌⊎◌, inl, inr, arith, String, Bool, true, false, not, ◌&&◌, ◌||◌,
  Option, none, some, List, [], ◌∷◌, str_eq, if◌then◌else◌, Bool-cases, Option-cases, eq_iff,
  returned,
}
use chaosblade_box_agent.Prelude.Dict.{
  Dict, lookup, insert, delete, IsMap, insert-IsMap, lookup-insert, lookup-delete,
}
use chaosblade_box_agent.Transport.Json.{Fields, end, field, as_string}
use chaosblade_box_agent.Collector.{CommonInfo, ResourceIdentifier}
use chaosblade_box_agent.Collector.Metric.{add_cids}
use chaosblade_box_agent.Collector.Metric.Resets.{lookup-add_cids, with_cid, cid_in}
use chaosblade_box_agent.Collector.Increment.{
  ResourceInfo, handle_increment, collect, sweep, gone_info, key_info,
}
use chaosblade_box_agent.Collector.Increment.Tracks.{
  Unmarked, mem, uids, tracked, swept, lookup-sweep, collected,
}

-- an identifier is reported as gone by a sweep
abbrev pub is_stale : Option ResourceIdentifier → Bool
is_stale none = false
is_stale (some v) = not v.curr && not (str_eq v.cid "")

-- each identifier stands under its uid
abbrev pub Keyed : Dict ResourceIdentifier → Type 0
Keyed [] = Unit
Keyed ((k, v) ∷ ids) = (v.uid ≡ k) × Keyed ids

module _ {A : Type 0} (info : ResourceInfo A) where
  -- one reported information: in full, in short, or of a resource that is gone
  abbrev pub receive : Dict A → A → Dict A
  receive view a =
      let c = info.common a in
      if c.exist then (if str_eq c.cid "" then insert view c.uid a else view) else delete view c.uid

  abbrev pub receive_all : Dict A → List A → Dict A
  receive_all view [] = view
  receive_all view (a ∷ rest) = receive_all (receive view a) rest

  receive-gone_info :
      (view : Dict A) (v : ResourceIdentifier) → receive view (gone_info info v) ≡ delete view v.uid
  receive-gone_info view v = rw info.common_only

  receive-key_info :
      (view : Dict A) (v : ResourceIdentifier)
      → str_eq v.cid "" ≡ false
      → receive view (key_info info v) ≡ view
  receive-key_info view v known = rw info.common_only (rw known)

  receive_gone :
      (ids : Dict ResourceIdentifier) (view : Dict A) (k : String)
      → IsMap ids
      → Keyed ids
      → lookup (receive_all view (sweep info ids).1) k
        ≡ (if is_stale (lookup ids k) then none else lookup view k)
  unfolding sweep lookup
  receive_gone [] view k h keyed = refl
  receive_gone ((j, v) ∷ ids) view k (fresh, h) (same, keyed) = ground (
    arith,
    receive_gone ids view k h keyed,
    receive_gone ids (delete view j) k h keyed,
    lookup-delete view j k,
    receive-gone_info view v,
    eq_iff j k,
  )

Keyed-of :
    (ids : Dict ResourceIdentifier)
    → IsMap ids
    → ((k : String) (v : ResourceIdentifier) → lookup ids k ≡ some v → v.uid ≡ k)
    → Keyed ids
unfolding lookup
Keyed-of [] h named = tt
Keyed-of ((j, v) ∷ ids) (fresh, h) named = (
  named j v (ground (arith, eq_iff j j)),
  Keyed-of ids h (λ k w e. named k w (ground (arith, eq_iff j k))),
)

-- what the view holds behind the reports of a sweep
pub lookup-receive_gone :
    {A : Type 0} (info : ResourceInfo A) (ids : Dict ResourceIdentifier) (view : Dict A)
    (k : String)
    → IsMap ids
    → ((k : String) (v : ResourceIdentifier) → lookup ids k ≡ some v → v.uid ≡ k)
    → lookup (receive_all info view (sweep info ids).1) k
      ≡ (if is_stale (lookup ids k) then none else lookup view k)
lookup-receive_gone info ids view k h named = receive_gone info ids view k h (Keyed-of ids h named)

module _ {A : Type 0} (md5sum_data : A → Option String) where
  -- an identifier whose sum is that of what the view holds, as soon as it is seen or has a cid
  abbrev pub Good : String → Option ResourceIdentifier → Option A → Type 0
  Good k none w = Unit
  Good k (some v) w =
      (v.uid ≡ k)
      × ((v.curr || not (str_eq v.cid "")) ≡ true
          → (a : A) × (w ≡ some a) × (md5sum_data a ≡ some v.md5))

module _ {A : Type 0} (info : ResourceInfo A) (md5sum_data : A → Option String) where
  -- the identifier of a resource behind its report, and what is reported
  abbrev pub entry : Option ResourceIdentifier → String → A → ResourceIdentifier
  entry none sum_data a = record {
    uid = (info.common a).uid;
    cid = "";
    md5 = sum_data;
    curr = true;
    name = (info.common a).name;
  }
  entry (some v) sum_data a =
      if str_eq v.md5 sum_data && not (str_eq v.cid "")
      then record v { curr = true }
      else record v { md5 = sum_data; curr = true }

  abbrev pub sent : Option ResourceIdentifier → String → A → A
  sent none sum_data a = a
  sent (some v) sum_data a =
      if str_eq v.md5 sum_data && not (str_eq v.cid "") then key_info info v else a

  pub handle_increment_lem :
      (ids : Dict ResourceIdentifier) (a : A) (sum_data : String)
      → md5sum_data a ≡ some sum_data
      → let o = lookup ids (info.common a).uid in
        handle_increment info md5sum_data ids a
        ≡ (insert ids (info.common a).uid (entry o sum_data a), sent o sum_data a)
  unfolding handle_increment
  handle_increment_lem ids a sum_data is_summed = ground arith

  pub entry_marked :
      (o : Option ResourceIdentifier) (sum_data : String) (a : A)
      → ((entry o sum_data a).md5 ≡ sum_data) × ((entry o sum_data a).curr ≡ true)
  entry_marked none sum_data a = (refl, refl)
  entry_marked (some v) sum_data a = ground (arith, eq_iff v.md5 sum_data)

  pub entry_uid :
      (o : Option ResourceIdentifier) (w : Option A) (sum_data : String) (a : A)
      → Good md5sum_data (info.common a).uid o w
      → (entry o sum_data a).uid ≡ (info.common a).uid
  entry_uid none w sum_data a good = refl
  entry_uid (some v) w sum_data a good = ground arith

  -- what the view holds behind the report of a resource: the resource in full
  pub receive-sent :
      (o : Option ResourceIdentifier) (view : Dict A) (sum_data : String) (a : A) (k : String)
      → (info.common a).exist ≡ true
      → (info.common a).cid ≡ ""
      → md5sum_data a ≡ some sum_data
      → ((b : A) → md5sum_data b ≡ md5sum_data a → b ≡ a)
      → Good md5sum_data (info.common a).uid o (lookup view (info.common a).uid)
      → lookup (receive info view (sent o sum_data a)) k
        ≡ (if str_eq (info.common a).uid k then some a else lookup view k)
  receive-sent none view sum_data a k exists no_cid is_summed tells good =
      rw (exists, no_cid) (lookup-insert view (info.common a).uid k a)
  receive-sent (some v) view sum_data a k exists no_cid is_summed tells good =
      elim (Bool-cases (str_eq v.md5 sum_data && not (str_eq v.cid ""))) [
        | inr full ↦ rw (full, exists, no_cid) (lookup-insert view (info.common a).uid k a)
        | inl same ↦
            let known : str_eq v.cid "" ≡ false = ground arith in
            let (b, held, b_summed) = good.1 (ground arith) in
            let md5_same : md5sum_data b ≡ some sum_data = ground (arith, eq_iff v.md5 sum_data) in
            let e : b ≡ a = tells b (md5_same ∙ sym is_summed) in
            rw (same, receive-key_info info view v known)
              (ground (arith, eq_iff (info.common a).uid k))
      ]
