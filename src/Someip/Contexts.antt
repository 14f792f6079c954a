-- ===== src/Someip/Contexts.antt =====
-- The events of a remote service that have no context.
use inc_someip_gateway.Base.{
  ℕ, ◌+◌, ◌≡◌, ◌<◌, refl, false, List, [], ◌∷◌, arith, Option, none, nat_eq, ◌==◌,
}
use inc_someip_gateway.Map.{Map, find}
use inc_someip_gateway.Serializer.{
  Status, ok, serializer_nonexistent, ServiceType, event, get_serializer,
}
use inc_someip_gateway.Someip.Samples.{EventConfig, EventContext, make_contexts, add_context}

find-add_context :
    (first id : ℕ) (e : EventConfig) (r : Status × Option ℕ) (later : Map ℕ EventContext)
    → (first == id) ≡ false
    → find id (add_context first e r later) ≡ find id later
unfolding find add_context
find-add_context first id e (ok, s) later h = rw h refl
find-add_context first id e (Status.general_failure, s) later h = refl
find-add_context first id e (Status.serialization_failure, s) later h = refl
find-add_context first id e (Status.deserialization_failure, s) later h = refl
find-add_context first id e (serializer_nonexistent, s) later h = refl

module _ (serializers : List ServiceType) (ipc_events : List (List ℕ)) (name : List ℕ) where
  find-make_contexts_below :
      (first id : ℕ) (events : List EventConfig)
      → id < first
      → find id (make_contexts serializers ipc_events name first events) ≡ none
  unfolding find make_contexts
  find-make_contexts_below first id [] h = refl
  find-make_contexts_below first id (e ∷ rest) h =
      let later = make_contexts serializers ipc_events name (first + 1) rest in
      let below = find-make_contexts_below (first + 1) id rest (omega arith) in
      let added =
        find-add_context first id e (get_serializer serializers name event e.event_name) later
          (ground arith) in
      ground arith
