-- ===== src/Engine/Json.antt =====
-- The JSON values that the engine writes, as Python values: a dict is its
-- members in insertion order.
use sandbox_tester.Common.{String, Bool, List, [], ◌∷◌}

mutual
  pub data Json : Type 0 where
    null : Json
    boolean : Bool → Json
    text : String → Json
    array : Items → Json
    object : Members → Json

  pub data Items : Type 0 where
    no_items : Items
    item : Json → Items → Items

  pub data Members : Type 0 where
    no_members : Members
    member : String → Json → Members → Members

-- A list of values, and a dict of values.
abbrev pub items : List Json → Items
items [] = no_items
items (j ∷ js) = item j (items js)

abbrev pub members : List (String × Json) → Members
members [] = no_members
members ((k, j) ∷ rest) = member k j (members rest)
