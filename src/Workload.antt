-- ===== src/Workload.antt =====
-- The workload monitor (src/tools/extended-test-framework/workload_monitor): a server where a client, the
-- registrant, lists pods with the violations to look out for, and a loop that looks.
-- This file has the list (list/workload_list.go); the children have the handlers and the loop.
pub mod Entries
pub mod Table
pub mod ListLaws
pub mod Handlers
pub mod Monitor
pub mod MonitorSteps
pub mod PassSteps
pub mod Reports
pub mod Restarts
pub mod Invariant
pub mod Watch
pub mod System
use mayastor_e2e.Prelude.{
  ℕ, suc, ◌+◌, String, ◌==◌, List, [], ◌∷◌, ◌++◌, map, Option, none, some, Bool, true, false,
  if◌then◌else◌, length, bind_option, map_option,
}
use mayastor_e2e.GoMap.{lookup, insert, erase}

pub data Violation : Type 0 where
  restarted terminated not_present : Violation

pub record Workload : Type 0 where
  pub id : String
  pub name : String
  pub namespace : String
  pub violations : List Violation

pub record WorkloadListItem : Type 0 where
  pub restarts : ℕ  -- int32
  pub wl : Workload
  pub rid : String

-- gWorkloadList.WorkloadMap: by registrant, then by workload.
abbrev pub Items : Type 0
Items = List (String × WorkloadListItem)

abbrev pub WorkloadMap : Type 0
WorkloadMap = List (String × Items)

-- `WorkloadMap[rid]`, where a missing map reads as an empty one.
abbrev pub or_empty : Option Items → Items
or_empty none = []
or_empty (some m) = m

unfoldable pub add_to_workload_list : Workload → String → String → WorkloadMap → WorkloadMap
add_to_workload_list wl rid wid m =
    insert rid (insert wid (record { restarts = 0; wl = wl; rid = rid }) (or_empty (lookup rid m)))
      m

-- The entry itself.
unfoldable pub get_item : String → String → WorkloadMap → Option WorkloadListItem
get_item rid wid m = bind_option (lookup rid m) (lookup wid)

unfoldable pub set_workload_list_item_restarts :
    String → String → ℕ → WorkloadMap → WorkloadMap × Bool
set_workload_list_item_restarts rid wid n m = elim (lookup rid m) [
  | none ↦ (m, false)
  | some items ↦ elim (lookup wid items) [
    | none ↦ (m, false)
    | some item ↦ (insert rid (insert wid (record item { restarts = n }) items) m, true)
  ]
]

unfoldable pub get_workload : String → String → WorkloadMap → Option Workload
unfolding get_item
get_workload rid wid m = map_option (λ (i : WorkloadListItem). i.wl) (get_item rid wid m)

unfoldable pub delete_workload : String → String → WorkloadMap → WorkloadMap
delete_workload rid wid m = elim (lookup rid m) [
  | none ↦ m
  | some items ↦ insert rid (erase wid items) m
]

-- How many were deleted, and what is left.
unfoldable pub delete_workloads : String → WorkloadMap → ℕ × WorkloadMap
delete_workloads rid m = elim (lookup rid m) [
  | none ↦ (0, m)
  | some items ↦ (length items, erase rid m)
]

abbrev pub item_values : Items → List WorkloadListItem
item_values = map (λ e. e.1)

unfoldable pub get_workload_list_by_registrant : String → WorkloadMap → List Workload
get_workload_list_by_registrant rid m =
    map (λ (i : WorkloadListItem). i.wl) (item_values (or_empty (lookup rid m)))

unfoldable pub get_workload_item_list : WorkloadMap → List WorkloadListItem
get_workload_item_list [] = []
get_workload_item_list ((rid, items) ∷ m) = item_values items ++ get_workload_item_list m

unfoldable pub get_workload_list : WorkloadMap → List Workload
unfolding get_workload_item_list
get_workload_list m = map (λ (i : WorkloadListItem). i.wl) (get_workload_item_list m)

-- The inner loop of DeleteWorkloadById.
unfoldable pub delete_by_id : String → Items → Items
delete_by_id id [] = []
delete_by_id id ((wid, item) ∷ items) =
    let rest = delete_by_id id items in if item.wl.id == id then rest else (wid, item) ∷ rest

unfoldable pub delete_workload_by_id : String → WorkloadMap → WorkloadMap
unfolding delete_by_id
delete_workload_by_id id [] = []
delete_workload_by_id id ((rid, items) ∷ m) =
    (rid, delete_by_id id items) ∷ delete_workload_by_id id m
