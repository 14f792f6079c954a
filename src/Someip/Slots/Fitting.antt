-- ===== src/Someip/Slots/Fitting.antt =====
-- The slots are large enough for the samples.
use inc_someip_gateway.Base.{
  ℕ, zero, suc, ◌+◌, ◌^◌, ◌≡◌, ◌≤◌, ◌<◌, refl, ap, sym, ◌∙◌, List, [], ◌∷◌, Option, some, is_empty,
  false, get_elem?, length, arith, Option-cases, inl, inr,
}
use inc_someip_gateway.Serializer.{
  ok, PreSerialized, ServiceType, event, get_serializer, get_max_serialized_size,
}
use inc_someip_gateway.Serializer.Roundtrip.{message, IsHeld}
use inc_someip_gateway.Someip.{updates, notifies}
use inc_someip_gateway.Someip.Payload.{Payload, payload_data}
use inc_someip_gateway.Someip.Samples.{EventConfig, ServiceConfig, receive_sample}
use inc_someip_gateway.Someip.Network.{forward_to_vsomeip}
use inc_someip_gateway.Someip.Delivery.{IsPayload, sample_delivered}
use inc_someip_gateway.Someip.Slots.{max, size_of, largest_size, event_slot_size}

le-max : (a b : ℕ) → (a ≤ max a b) × (b ≤ max a b)
unfolding max
le-max a b = ground arith

module _ (serializers : List ServiceType) (name : List ℕ) where
  largest_size-step :
      (d : EventConfig) (rest : List EventConfig) (so_far largest : ℕ)
      → largest_size serializers name so_far (d ∷ rest) ≡ some largest
      → (size : ℕ) × (size_of (get_serializer serializers name event d.event_name) ≡ some size)
        × (largest_size serializers name (max so_far size) rest ≡ some largest)
  unfolding largest_size
  largest_size-step d rest so_far largest h =
      elim (Option-cases (size_of (get_serializer serializers name event d.event_name))) [
        | inl missing ↦ absurd (ground arith)
        | inr (size, there) ↦ (size, there, ground arith)
      ]

  so_far-le :
      (events : List EventConfig) (so_far largest : ℕ)
      → largest_size serializers name so_far events ≡ some largest
      → so_far ≤ largest
  so_far-le [] so_far largest h = unfold largest_size in ground arith
  so_far-le (d ∷ rest) so_far largest h =
      let (size, there, later) = largest_size-step d rest so_far largest h in
      let ih = so_far-le rest (max so_far size) largest later in omega (arith, le-max so_far size)

  -- The size of each event is at most the largest.
  size-le-largest :
      (events : List EventConfig) (so_far largest k : ℕ) (e : EventConfig) (serializer : Option ℕ)
      → largest_size serializers name so_far events ≡ some largest
      → get_elem? events k ≡ some e
      → get_serializer serializers name event e.event_name ≡ (ok, serializer)
      → get_max_serialized_size serializer ≤ largest
  size-le-largest [] so_far largest k e serializer h at found = absurd (cc)
  size-le-largest (d ∷ rest) so_far largest zero e serializer h at found =
      let (size, there, later) = largest_size-step d rest so_far largest h in
      let same : d ≡ e = cc in
      let known : size_of (ok, serializer) ≡ some size =
        ap size_of (
          sym (
            ap (λ (x : EventConfig). get_serializer serializers name event x.event_name) same
            ∙ found))
        ∙ there in
      let le = so_far-le rest (max so_far size) largest later in
      let bound = le-max so_far size in unfold size_of in ground arith
  size-le-largest (d ∷ rest) so_far largest (suc k) e serializer h at found =
      let (size, there, later) = largest_size-step d rest so_far largest h in
      size-le-largest rest (max so_far size) largest k e serializer later at found

-- Where each event of a service has a serializer with a greatest size, a sample of no more than that
-- size always fits the slot that the daemon configures for the service: the update of the event is
-- not dropped, and the message of the sample is notified to the network.
pub sample_fits :
    (serializers : List ServiceType) (service : ServiceConfig) (e : EventConfig)
    (instance_id id largest : ℕ) (serializer : Option ℕ) (p : Payload) (o : PreSerialized)
    → largest_size serializers service.service_type_name 0 service.events ≡ some largest
    → largest + 16 < 2 ^ 64
    → get_elem? service.events id ≡ some e
    → get_serializer serializers service.service_type_name event e.event_name ≡ (ok, serializer)
    → IsPayload p
    → length (payload_data p) ≡ event_slot_size serializers service
    → IsHeld o
    → o.size ≤ get_max_serialized_size serializer
    → (p' : Payload) × (receive_sample service e id (some p) o ≡ updates id p')
      × (forward_to_vsomeip service instance_id id p'
          ≡ notifies service.service_id instance_id e.event_id (message o))
sample_fits serializers service e instance_id id largest serializer p o all small at found fits slot
      held le =
    let bound =
      size-le-largest serializers service.service_type_name service.events 0 largest id e serializer
        all at found in
    let there : is_empty service.events ≡ false = has_events service.events id e at in
    let size : event_slot_size serializers service ≡ largest + 16 =
      unfold event_slot_size in rw there (rw all (omega arith)) in
    let room : length (payload_data p) ≡ largest + 16 = slot ∙ size in
    let (p', ran, sent, start, end) =
      (sample_delivered service e instance_id id p o at fits held (omega arith)).0 (omega arith) in
    (p', ran, sent)
  where
    has_events :
        (events : List EventConfig) (k : ℕ) (d : EventConfig)
        → get_elem? events k ≡ some d
        → is_empty events ≡ false
    has_events [] k d h = absurd (cc)
    has_events (x ∷ xs) k d h = refl
