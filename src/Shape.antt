-- ===== src/Shape.antt =====
-- rust/worker/src/execution.rs: `check_shape`, the shape of a job's document before it is decoded.
use distributed_execution.Base.{
  ℕ, ◌+◌, Bool, true, false, ◌&&◌, leb, all, if◌then◌else◌, Option, none, some, List, [], ◌∷◌,
  Bytes, bytes_eq, ascii,
}

-- `serde_json::Value`, with its array's values and its object's members.
mutual
  pub data Value : Type 0 where
    null number : Value
    flag : Bool → Value
    text : Bytes → Value
    array : Values → Value
    object : Members → Value

  pub data Values : Type 0 where
    no_values : Values
    values : Value → Values → Values

  pub data Members : Type 0 where
    no_members : Members
    members : Bytes → Value → Members → Members

abbrev pub is_object : Value → Bool
is_object (object fields) = true
is_object _ = false

unfoldable pub member : Bytes → Members → Option Value
member name no_members = none
member name (members key value rest) =
    let later = member name rest in if bytes_eq key name then some value else later

-- `value.get(name)`
unfoldable pub field : Bytes → Value → Option Value
unfolding member
field name (object fields) = member name fields
field name _ = none

-- `value.pointer(…)`, as the names on the way.
unfoldable pub pointer : List Bytes → Value → Option Value
unfolding field
pointer [] value = some value
pointer (name ∷ names) value = elim (field name value) [
  | none ↦ none
  | some inner ↦ pointer names inner
]

abbrev some_object : Option Value → Bool
some_object none = false
some_object (some value) = is_object value

abbrev only_objects : Values → Bool
only_objects no_values = true
only_objects (values value rest) = is_object value && only_objects rest

abbrev array_of_objects : Option Value → Bool
array_of_objects (some (array items)) = only_objects items
array_of_objects _ = true

unfoldable mutual
  pub depth_bounded : (depth : ℕ) → Value → Bool
  depth_bounded depth null = false
  depth_bounded depth number = leb depth 32
  depth_bounded depth (flag b) = leb depth 32
  depth_bounded depth (text bytes) = leb depth 32
  depth_bounded depth (array items) = leb depth 32 && elements_depth_bounded (depth + 1) items
  depth_bounded depth (object fields) = leb depth 32 && members_bounded (depth + 1) fields

  pub elements_depth_bounded : (depth : ℕ) → Values → Bool
  elements_depth_bounded depth no_values = true
  elements_depth_bounded depth (values value rest) =
      depth_bounded depth value && elements_depth_bounded depth rest

  pub members_bounded : (depth : ℕ) → Members → Bool
  members_bounded depth no_members = true
  members_bounded depth (members key value rest) =
      depth_bounded depth value && members_bounded depth rest

abbrev named_objects : List (List Bytes)
named_objects =
    []
    ∷ (ascii "metadata" ∷ [])
    ∷ (ascii "spec" ∷ [])
    ∷ (ascii "spec" ∷ ascii "resources" ∷ [])
    ∷ (ascii "spec" ∷ ascii "placement" ∷ [])
    ∷ (ascii "spec" ∷ ascii "timeouts" ∷ [])
    ∷ (ascii "spec" ∷ ascii "retry" ∷ [])
    ∷ []

unfoldable pub has_shape : Value → Bool
unfolding pointer depth_bounded
has_shape value =
    all (λ names. some_object (pointer names value)) named_objects
    && array_of_objects (pointer (ascii "spec" ∷ ascii "inputs" ∷ []) value)
    && array_of_objects (pointer (ascii "spec" ∷ ascii "outputs" ∷ []) value)
    && depth_bounded 0 value
