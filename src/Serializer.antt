-- ===== src/Serializer.antt =====
-- The serializer that copies memory, of score/serializer/null_serializer.cpp, on the data of
-- score/serializer/pre_serialized_data.h. A pointer is an `Option`, `none` for a null pointer; the
-- configuration that the flatbuffer library reads is a value.
pub mod Roundtrip
mod Tests
use inc_someip_gateway.Base.{
  ℕ, zero, suc, Bool, true, false, not, List, [], ◌∷◌, Option, none, some, if◌then◌else◌, ltb,
}
use inc_someip_gateway.Strings.{list_beq}
use inc_someip_gateway.Strings.Fixed.{take}

-- `score_com_serializer_result`.
pub data Status : Type 0 where
  ok general_failure serialization_failure deserialization_failure serializer_nonexistent : Status

-- `PreSerializedData`: the size of the message, and the array that holds it.
pub record PreSerialized : Type 0 where
  pub size : ℕ
  pub bytes : List ℕ

-- `memcpy` of all of the first list to the start of the second.
unfoldable pub copy_to : List ℕ → List ℕ → List ℕ
copy_to [] ys = ys
copy_to (x ∷ xs) [] = []
copy_to (x ∷ xs) (y ∷ ys) = x ∷ copy_to xs ys

-- The status, the buffer afterwards, and what is stored in `written_bytes`.
unfoldable pub serialize :
    Option (List ℕ) → ℕ → Option PreSerialized → Status × Option (List ℕ) × Option ℕ
serialize none buffer_size object = (general_failure, none, none)
serialize (some buffer) buffer_size none = (general_failure, some buffer, none)
serialize (some buffer) buffer_size (some object) =
    if ltb buffer_size object.size
    then (serialization_failure, some buffer, none)
    else (ok, some (copy_to (take object.size object.bytes) buffer), some object.size)

-- The serializer is known by the greatest size of its messages. The status, and the object
-- afterwards.
unfoldable pub deserialize :
    Option ℕ → Option (List ℕ) → ℕ → Option PreSerialized → Status × Option PreSerialized
deserialize none buffer buffer_size object = (general_failure, object)
deserialize (some max_size) none buffer_size object = (general_failure, object)
deserialize (some max_size) (some buffer) buffer_size none = (general_failure, none)
deserialize (some max_size) (some buffer) buffer_size (some object) =
    if ltb max_size buffer_size then (deserialization_failure, some object) else (
      ok,
      some (record { size = buffer_size; bytes = copy_to (take buffer_size buffer) object.bytes }),
    )

unfoldable pub get_max_serialized_size : Option ℕ → ℕ
get_max_serialized_size none = 0
get_max_serialized_size (some max_size) = max_size

-- An event or a method of the configuration: its name, and the greatest sizes for its messages, of
-- which an event uses the first alone.
pub record Element : Type 0 where
  pub name : Option (List ℕ)
  pub request : Option ℕ
  pub response : Option ℕ

pub record ServiceType : Type 0 where
  pub name : Option (List ℕ)
  pub events : Option (List Element)
  pub methods : Option (List Element)

pub data ElementType : Type 0 where
  event method_call method_response other_element : ElementType

unfoldable pub is_named : List ℕ → Option (List ℕ) → Bool
is_named name none = false
is_named name (some n) = list_beq n name

unfoldable pub find_element : List ℕ → List Element → Option Element
find_element name [] = none
find_element name (e ∷ rest) = if is_named name e.name then some e else find_element name rest

unfoldable pub config_of : ElementType → List ℕ → ServiceType → Option ℕ
config_of event name t = elim t.events [
  | none ↦ none
  | some es ↦ elim (find_element name es) [ none ↦ none | some e ↦ e.request ]
]
config_of method_call name t = elim t.methods [
  | none ↦ none
  | some es ↦ elim (find_element name es) [ none ↦ none | some e ↦ e.request ]
]
config_of method_response name t = elim t.methods [
  | none ↦ none
  | some es ↦ elim (find_element name es) [ none ↦ none | some e ↦ e.response ]
]
config_of other_element name t = none

-- The loop over the service types: the first with the name decides.
unfoldable pub lookup_serialization_config :
    List ServiceType → List ℕ → ElementType → List ℕ → Option ℕ
lookup_serialization_config [] service_type element_type name = none
lookup_serialization_config (t ∷ rest) service_type element_type name =
    let later = lookup_serialization_config rest service_type element_type name in
    if not (is_named service_type t.name) then later else config_of element_type name t

-- `score_com_serializer_get` with a place for the serializer: the status, and what is stored there.
unfoldable pub get_serializer : List ServiceType → List ℕ → ElementType → List ℕ → Status × Option ℕ
get_serializer config service_type element_type name =
    elim (lookup_serialization_config config service_type element_type name) [
      | none ↦ (serializer_nonexistent, none)
      | some max_size ↦ (ok, some max_size)
    ]
