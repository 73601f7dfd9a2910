-- ===== src/Collector/Watchers.antt =====
-- collector/kubernetes/kubernetes.go and types.go: the lister and watcher that combines those of
-- several namespaces. A lister and watcher of the Kubernetes client is a parameter.
pub mod Versions
pub mod Events
use Prim.Native.Nat.{ℕ}
use chaosblade_box_agent.Prelude.{
  ◌≡◌, refl, inl, inr, String, Bool, true, false, ◌&&◌, ◌||◌, ◌⊎◌, List, [], ◌∷◌, ◌++◌, length,
  replicate, ◌==◌, str_eq, not, if◌then◌else◌,
}
use Prim.Native.String.{◌++◌ as str_append}
use chaosblade_box_agent.Prelude.Strconv.{format_int}
use chaosblade_box_agent.Prelude.Text.{trim_space}
use chaosblade_box_agent.Prelude.Sets.{join, split}

-- `NamespaceList.String`
unfoldable pub namespaces_string : List String → String
unfolding join
namespaces_string n = join "," n

-- the loop of `NamespaceList.Set`
unfoldable pub add_namespaces : List String → List String → List String
unfolding trim_space
add_namespaces n [] = n
add_namespaces n (ns ∷ rest) =
    add_namespaces (if not (str_eq (trim_space ns) "") then n ++ trim_space ns ∷ [] else n) rest

-- `NamespaceList.Set`, which fails nowhere
unfoldable pub set_namespaces : List String → String → List String
unfolding split add_namespaces
set_namespaces n value = add_namespaces n (split value ",")

-- `IsAllNamespaces`
unfoldable pub is_all_namespaces : List String → Bool
is_all_namespaces [] = false
is_all_namespaces (ns ∷ []) = str_eq ns ""
is_all_namespaces (ns ∷ next ∷ rest) = false

-- a list of objects, as far as they can be taken out of it, and its resource version
pub record Listing (A : Type 0) : Type 0 where
  pub items : String ⊎ List A
  pub resource_version : String ⊎ String

-- a `ListerWatcher`: a list or an error, and for a resource version an error or the versions of the
-- watches that it opens
pub record ListerWatcher (A : Type 0) : Type 0 where
  pub list : String ⊎ Listing A
  pub watch : String → String ⊎ List String

module _ {A : Type 0} where
  -- one lister of the loop of `List`
  unfoldable pub list_one : ListerWatcher A → String ⊎ (List A × String)
  list_one lw = elim lw.list [
    | inl err ↦ inl err
    | inr listing ↦ elim listing.items [
      | inl err ↦ inl err
      | inr items ↦ elim listing.resource_version [
        | inl err ↦ inl err
        | inr version ↦ inr (items, version)
      ]
    ]
  ]

  -- the loop of `List`: the objects and the resource versions so far
  unfoldable pub list_all :
      List A → List String → List (ListerWatcher A) → String ⊎ (List A × List String)
  unfolding list_one
  list_all items versions [] = inr (items, versions)
  list_all items versions (lw ∷ lws) = elim (list_one lw) [
    | inl err ↦ inl err
    | inr (more, version) ↦ list_all (items ++ more) (versions ++ version ∷ []) lws
  ]

  -- `multiListerWatcher.List`
  unfoldable pub multi_list : List (ListerWatcher A) → String ⊎ (List A × String)
  unfolding list_all join
  multi_list lws = elim (list_all [] [] lws) [
    | inl err ↦ inl err
    | inr (items, versions) ↦ inr (items, join "/" versions)
  ]

  -- `newMultiWatch`, for lists of the same length: the watches opened, or the first error
  unfoldable pub new_multi_watch : List (ListerWatcher A) → List String → String ⊎ List String
  new_multi_watch [] versions = inr []
  new_multi_watch (lw ∷ lws) [] = inr []
  new_multi_watch (lw ∷ lws) (version ∷ versions) = elim (lw.watch version) [
    | inl err ↦ inl err
    | inr opened ↦ elim (new_multi_watch lws versions) [
      | inl err ↦ inl err
      | inr more ↦ inr (opened ++ more)
    ]
  ]

  -- `multiListerWatcher.Watch`
  unfoldable pub multi_watch : List (ListerWatcher A) → String → String ⊎ List String
  unfolding split format_int new_multi_watch
  multi_watch lws resource_version =
      if str_eq resource_version ""
      then new_multi_watch lws (replicate (length lws) "")
      else if length (split resource_version "/") == length lws
      then new_multi_watch lws (split resource_version "/")
      else inl (
          str_append "expected resource version to have "
            (str_append (format_int (length lws)) " parts to match the number of ListerWatchers"))

  -- the combined lister and watcher
  unfoldable pub multi_lister_watcher : List (ListerWatcher A) → ListerWatcher A
  unfolding multi_list multi_watch
  multi_lister_watcher lws = record {
    list = elim (multi_list lws) [
      | inl err ↦ inl err
      | inr (items, version) ↦ inr (record { items = inr items; resource_version = inr version })
    ];
    watch = multi_watch lws;
  }

  abbrev pub each : (String → ListerWatcher A) → List String → List (ListerWatcher A)
  each f [] = []
  each f (ns ∷ rest) = f ns ∷ each f rest

  -- `MultiNamespaceListerWatcher`
  unfoldable pub multi_namespace_lister_watcher :
      List String → (String → ListerWatcher A) → ListerWatcher A
  unfolding multi_lister_watcher is_all_namespaces
  multi_namespace_lister_watcher [] f = multi_lister_watcher []
  multi_namespace_lister_watcher (ns ∷ rest) f =
      if is_all_namespaces (ns ∷ rest) || length (ns ∷ rest) == 1
      then f ns
      else multi_lister_watcher (each f (ns ∷ rest))
