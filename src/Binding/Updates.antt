-- ===== src/Binding/Updates.antt =====
-- To whom an update of an event goes, and how many consumers its payload is kept for.
use inc_someip_gateway.Base.{ℕ, ◌+◌, ◌≡◌, Bool, List, [], ◌∷◌, some, if◌then◌else◌, nat_eq}
use inc_someip_gateway.Map.{Map, find}
use inc_someip_gateway.Wire.{Handle, event_update}
use inc_someip_gateway.ConnectionMetadata.{Ids}
use inc_someip_gateway.Allocations.{Allocations}
use inc_someip_gateway.Binding.{
  Binding, Output, sends, tells, updates_event, makes_server_connector, destroys_connector,
}

-- The messages that their channel takes.
unfoldable pub delivered : (ℕ → Bool) → List Output → ℕ
delivered accepts [] = 0
delivered accepts (sends channel msg ∷ rest) =
    (if accepts channel then 1 else 0) + delivered accepts rest
delivered accepts (tells connector call ∷ rest) = delivered accepts rest
delivered accepts (updates_event connector event_id payload ∷ rest) = delivered accepts rest
delivered accepts (makes_server_connector key service instance_id methods events ∷ rest) =
    delivered accepts rest
delivered accepts (destroys_connector connector ∷ rest) = delivered accepts rest

-- One output for each client, in order: the update under the client's own handle, on its channel.
unfoldable pub Each : Map ℕ ℕ → ℕ → Handle → Map ℕ Ids → List Output → Type 0
Each connections event_id handle [] [] = Unit
Each connections event_id handle ((client_id, ids) ∷ rest) (o ∷ outputs) =
    ((channel : ℕ) × (find client_id connections ≡ some channel)
      × (o ≡ sends channel (event_update ids.remote_handle event_id handle)))
    × Each connections event_id handle rest outputs
Each connections event_id handle [] (o ∷ outputs) = ⊥
Each connections event_id handle (client ∷ rest) [] = ⊥
