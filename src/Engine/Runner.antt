-- ===== src/Engine/Runner.antt =====
-- The report of a run: src/sandbox_tester/runner.py.
pub mod Evidence
use mathlib.Core.List.{map}
use sandbox_tester.Common.{String, Bool, true, false, List, ◌==◌, string_eq, if◌then◌else◌}
use sandbox_tester.Engine.Json.{
  Json, null, boolean, text, array, object, Items, no_items, item, Members, no_members, member,
}
use sandbox_tester.Engine.Models.{CapabilityGroupResult, group_data}

unfoldable mutual
  pub remove_serialized_evidence : Json → Json
  remove_serialized_evidence null = null
  remove_serialized_evidence (boolean b) = boolean b
  remove_serialized_evidence (text s) = text s
  remove_serialized_evidence (array values) = array (remove_in_items values)
  remove_serialized_evidence (object entries) = object (remove_in_members entries)

  -- `[_remove_serialized_evidence(item) for item in value]`
  pub remove_in_items : Items → Items
  remove_in_items no_items = no_items
  remove_in_items (item j values) = item (remove_serialized_evidence j) (remove_in_items values)

  pub remove_in_members : Members → Members
  remove_in_members no_members = no_members
  remove_in_members (member key j entries) =
      let rest = remove_in_members entries in
      let removed = remove_serialized_evidence j in
      if key == "evidence" then member key (text "[REMOVED]") rest else member key removed rest

-- The list of the groups' data, with or without evidence.
unfoldable pub results_to_json_data : List CapabilityGroupResult → Bool → List Json
results_to_json_data results true = map group_data results
results_to_json_data results false = map remove_serialized_evidence (map group_data results)
