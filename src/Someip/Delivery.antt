-- ===== src/Someip/Delivery.antt =====
-- An event crosses both daemons.
use inc_someip_gateway.Base.{
  ℕ, ◌+◌, ◌-◌, ◌≡◌, ◌≤◌, ◌<◌, refl, sym, ap, ◌∙◌, false, List, [], ◌++◌, ltb, length, get_elem?,
  arith, drop, Option, none, some, length-append, Option-cases, inl, inr,
}
use mathlib.Core.List.{append_assoc}
use inc_someip_gateway.Strings.Fixed.{take}
use inc_someip_gateway.Serializer.{Status, ok, PreSerialized, serialize, copy_to}
use inc_someip_gateway.Serializer.Roundtrip.{message, IsHeld, take-copy_to, length-copy_to}
use inc_someip_gateway.Someip.{write_bytes, two_bytes, drops, faults, updates, notifies}
use inc_someip_gateway.Someip.Payload.{Payload, payload_data, shrink, with_data}
use inc_someip_gateway.Someip.Payload.Shrinking.{
  take_upto, take-append_at, drop_after, shrink_lem, payload_data-with_data,
}
use inc_someip_gateway.Someip.Writing.{
  write_bytes-at, split_at, length-write_bytes, write_bytes_beyond,
}
use inc_someip_gateway.Someip.Samples.{
  EventConfig, ServiceConfig, header_start, header_end, write_header, after_serialize,
  receive_sample,
}
use inc_someip_gateway.Someip.Network.{forward_to_vsomeip}

-- The span of the data lies within the memory of the payload.
abbrev pub IsPayload : Payload → Type 0
IsPayload p = p.lead_offset + p.header_size ≤ length p.bytes

-- A header, and the start of what is behind it.
take_header :
    (h b : List ℕ) (size : ℕ) → length h ≡ 16 → take (16 + size) (h ++ b) ≡ h ++ take size b
take_header h b size lh = take-append_at 16 size h b lh

length-header_start :
    (service : ServiceConfig) (e : EventConfig) → length (header_start service e) ≡ 4
unfolding header_start two_bytes
length-header_start service e = refl

length-header_end : (service : ServiceConfig) → length (header_end service) ≡ 8
unfolding header_end two_bytes
length-header_end service = refl

write_header-parts :
    (service : ServiceConfig) (e : EventConfig) (a gap c rest : List ℕ)
    → length a ≡ 4
    → length gap ≡ 4
    → length c ≡ 8
    → write_header service e (a ++ (gap ++ (c ++ rest)))
      ≡ some (header_start service e ++ (gap ++ (header_end service ++ rest)))
unfolding write_header
write_header-parts service e a gap c rest la lg lc =
    let start : List ℕ = header_start service e in
    let end : List ℕ = header_end service in
    let l : length start ≡ 4 = length-header_start service e in
    let first : write_bytes 0 start (a ++ (gap ++ (c ++ rest)))
        ≡ some (start ++ (gap ++ (c ++ rest))) =
      write_bytes-at [] start a (gap ++ (c ++ rest)) 0 refl (la ∙ sym l) in
    let second : write_bytes 8 end ((start ++ gap) ++ (c ++ rest))
        ≡ some ((start ++ gap) ++ (end ++ rest)) =
      write_bytes-at (start ++ gap) end c rest 8 (omega (arith, length-append start gap))
        (lc ∙ sym (length-header_end service)) in
    rw (first, write_header)
      (rw (append_assoc start gap (c ++ rest)) at
        (rw (append_assoc start gap (end ++ rest)) at second))

-- The header is written around the four bytes of the length, and nothing behind it.
write_header-split :
    (service : ServiceConfig) (e : EventConfig) (m : List ℕ)
    → 16 ≤ length m
    → (gap : List ℕ) × (rest : List ℕ) × (length gap ≡ 4)
      × (length rest ≡ length m - 16)
      × (write_header service e m
          ≡ some (header_start service e ++ (gap ++ (header_end service ++ rest))))
write_header-split service e m room =
    let (a, m1, la, l1, ea) = split_at 4 m (omega arith) in
    let (gap, m2, lg, l2, eg) = split_at 4 m1 (omega arith) in
    let (c, rest, lc, lr, ec) = split_at 8 m2 (omega arith) in
    let whole : m ≡ a ++ (gap ++ (c ++ rest)) = ea ∙ ap (◌++◌ a) (eg ∙ ap (◌++◌ gap) ec) in
    (
      gap,
      rest,
      lg,
      omega arith,
      ap (write_header service e) whole ∙ write_header-parts service e a gap c rest la lg lc,
    )

-- A header of sixteen bytes before the rest of the data.
sixteen :
    (start gap end rest : List ℕ)
    → length start ≡ 4
    → length gap ≡ 4
    → length end ≡ 8
    → (length (start ++ (gap ++ end)) ≡ 16)
      × (start ++ (gap ++ (end ++ rest)) ≡ (start ++ (gap ++ end)) ++ rest)
sixteen start gap end rest ls lg le = (
  omega (arith, length-append start (gap ++ end), length-append gap end),
  ap (◌++◌ start) (sym (append_assoc gap end rest)) ∙ sym (append_assoc start (gap ++ end) rest),
)

-- A payload whose data is a header of sixteen bytes and a message, after it was shrunk to these.
pub filled :
    (h b : List ℕ) (size : ℕ) (p : Payload)
    → IsPayload p
    → length h ≡ 16
    → size ≤ length b
    → payload_data (shrink (16 + size) (with_data (h ++ b) p)).0 ≡ h ++ take size b
filled h b size p fits lh le =
    let q : Payload = with_data (h ++ b) p in
    let whole : payload_data q ≡ h ++ b = payload_data-with_data (h ++ b) p fits in
    let room : 16 + size ≤ length (payload_data q) =
      omega (arith, ap length whole, length-append h b) in
    ((shrink_lem (16 + size) q).0 room).1 ∙ ap (take (16 + size)) whole ∙ take_header h b size lh

module _ (socom_event_id : ℕ) (p : Payload) (h rest : List ℕ) (o : PreSerialized)
    (lh : length h ≡ 16) where
  behind_header :
      serialize (some (drop 16 (h ++ rest))) (length (h ++ rest) - 16) (some o)
      ≡ serialize (some rest) (length rest) (some o)
  behind_header =
      let n : length (h ++ rest) - 16 ≡ length rest = omega (arith, length-append h rest) in
      rw (drop_after 16 h rest lh) (rw n refl)

  serialized :
      o.size ≤ length rest
      → after_serialize socom_event_id p
          (h ++ rest)
          (serialize (some (drop 16 (h ++ rest))) (length (h ++ rest) - 16) (some o))
        ≡ updates socom_event_id
            (shrink (16 + o.size) (with_data (h ++ copy_to (take o.size o.bytes) rest) p)).0
  serialized le =
      let done : serialize (some rest) (length rest) (some o)
          ≡ (ok, some (copy_to (take o.size o.bytes) rest), some o.size) =
        unfold serialize in ground arith in
      rw (behind_header ∙ done) (unfold after_serialize in rw (take_upto 16 h rest lh) refl)

  not_serialized :
      length rest < o.size
      → after_serialize socom_event_id p
          (h ++ rest)
          (serialize (some (drop 16 (h ++ rest))) (length (h ++ rest) - 16) (some o))
        ≡ drops
  not_serialized lt =
      let done : (serialize (some rest) (length rest) (some o)).0 ≡ Status.serialization_failure =
        unfold serialize in ground arith in
      rw behind_header (failed (serialize (some rest) (length rest) (some o)) done)
    where
      failed :
          (r : Status × Option (List ℕ) × Option ℕ)
          → r.0 ≡ Status.serialization_failure
          → after_serialize socom_event_id p (h ++ rest) r ≡ drops
      failed (Status.serialization_failure, b, n) e = unfold after_serialize in refl
      failed (Status.ok, b, n) e = absurd (cc)
      failed (Status.general_failure, b, n) e = absurd (cc)
      failed (Status.deserialization_failure, b, n) e = absurd (cc)
      failed (Status.serializer_nonexistent, b, n) e = absurd (cc)

forwarded :
    (service : ServiceConfig) (e : EventConfig) (instance_id id : ℕ) (p : Payload) (h msg : List ℕ)
    → get_elem? service.events id ≡ some e
    → length h ≡ 16
    → payload_data p ≡ h ++ msg
    → forward_to_vsomeip service instance_id id p
      ≡ notifies service.service_id instance_id e.event_id msg
unfolding forward_to_vsomeip
forwarded service e instance_id id p h msg configured lh content =
    let long : ltb (length (payload_data p)) 16 ≡ false =
      rw content (ground (arith, length-append h msg)) in
    let tail : drop 16 (payload_data p) ≡ msg = ap (drop 16) content ∙ drop_after 16 h msg lh in
    rw (configured, forward_to_vsomeip) (rw (long, tail) refl)

-- The two written parts of the header.
header_parts :
    (start gap end msg : List ℕ)
    → length start ≡ 4
    → length gap ≡ 4
    → length end ≡ 8
    → (take 4 ((start ++ (gap ++ end)) ++ msg) ≡ start)
      × (take 8 (drop 8 ((start ++ (gap ++ end)) ++ msg)) ≡ end)
header_parts start gap end msg ls lg le =
    let whole = (sixteen start gap end msg ls lg le).1 in
    let parts : start ++ (gap ++ (end ++ msg)) ≡ (start ++ gap) ++ (end ++ msg) =
      sym (append_assoc start gap (end ++ msg)) in
    (
      ap (take 4) (sym whole) ∙ take_upto 4 start (gap ++ (end ++ msg)) ls,
      ap (take 8) (
            ap (drop 8) (sym whole ∙ parts)
            ∙ drop_after 8 (start ++ gap) (end ++ msg) (omega (arith, length-append start gap)))
          ∙ take_upto 8 end msg le,
    )

-- A sample whose message fits behind the header is notified, and one that does not fit is dropped.
pub sample_delivered :
    (service : ServiceConfig) (e : EventConfig) (instance_id id : ℕ) (p : Payload)
    (o : PreSerialized)
    → get_elem? service.events id ≡ some e
    → IsPayload p
    → IsHeld o
    → 16 ≤ length (payload_data p)
    → (16 + o.size ≤ length (payload_data p)
        → (p' : Payload) × (receive_sample service e id (some p) o ≡ updates id p')
          × (forward_to_vsomeip service instance_id id p'
              ≡ notifies service.service_id instance_id e.event_id (message o))
          × (take 4 (payload_data p') ≡ header_start service e)
          × (take 8 (drop 8 (payload_data p')) ≡ header_end service))
      × (length (payload_data p) < 16 + o.size → receive_sample service e id (some p) o ≡ drops)
unfolding receive_sample
sample_delivered service e instance_id id p o configured fits held room =
    let (gap, rest, lg, lr, written) = write_header-split service e (payload_data p) room in
    let start : List ℕ = header_start service e in
    let end : List ℕ = header_end service in
    let ls = length-header_start service e in
    let le = length-header_end service in
    let h : List ℕ = start ++ (gap ++ end) in
    let (lh, whole) = sixteen start gap end rest ls lg le in
    let b : List ℕ = copy_to (take o.size o.bytes) rest in
    let p' : Payload = (shrink (16 + o.size) (with_data (h ++ b) p)).0 in
    let header_written : write_header service e (payload_data p) ≡ some (h ++ rest) =
      written ∙ ap some whole in
    (
      λ small.
          let content : payload_data p' ≡ h ++ message o =
            filled h b o.size p fits lh (omega (arith, length-copy_to (take o.size o.bytes) rest))
            ∙ ap (◌++◌ h) (take-copy_to o.size o.bytes rest held (omega arith)) in
          (
            p',
            rw (header_written, receive_sample) (serialized id p h rest o lh (omega arith)),
            forwarded service e instance_id id p' h (message o) configured lh content,
            ap (take 4) content ∙ (header_parts start gap end (message o) ls lg le).0,
            ap (λ d. take 8 (drop 8 d)) content
                ∙ (header_parts start gap end (message o) ls lg le).1,
          ),
      λ large. rw (header_written, receive_sample) (not_serialized id p h rest o lh (omega arith)),
    )

-- A payload without room for the header.
header_beyond :
    (service : ServiceConfig) (e : EventConfig) (m : List ℕ)
    → length m < 16
    → write_header service e m ≡ none
unfolding write_header
header_beyond service e m short =
    let end = length-header_end service in
    elim (Option-cases (write_bytes 0 (header_start service e) m)) [
      | inl missing ↦ ground arith
      | inr (m', written) ↦
          let same = length-write_bytes 0 (header_start service e) m m' written in
          ground (arith, write_bytes_beyond 8 (header_end service) m' (omega arith) (omega arith))
    ]

-- A sample of a local service, and the payload that was allocated for it. If the payload has room for
-- the header and, behind it, for the message of the sample: the sample updates the event, and that
-- update, when the other daemon gets its payload unchanged, is notified to the network as that event,
-- with exactly the message that the sample holds; in front of the message the payload has a header
-- that names the service and the event, and behind the length the client 0xFFFF, the session 0, the
-- protocol version 1, the major version, and that it is a notification. If there is room for the
-- header but not for the message, the sample is dropped. If the payload has less than the sixteen
-- bytes of the header, the header is written past its end.
pub sample_notified :
    (service : ServiceConfig) (e : EventConfig) (instance_id id : ℕ) (p : Payload)
    (o : PreSerialized)
    → get_elem? service.events id ≡ some e
    → IsPayload p
    → IsHeld o
    → (16 + o.size ≤ length (payload_data p)
        → (p' : Payload) × (receive_sample service e id (some p) o ≡ updates id p')
          × (forward_to_vsomeip service instance_id id p'
              ≡ notifies service.service_id instance_id e.event_id (message o))
          × (take 4 (payload_data p') ≡ header_start service e)
          × (take 8 (drop 8 (payload_data p')) ≡ header_end service))
      × (16 ≤ length (payload_data p)
          → length (payload_data p) < 16 + o.size
          → receive_sample service e id (some p) o ≡ drops)
      × (length (payload_data p) < 16 → receive_sample service e id (some p) o ≡ faults)
unfolding receive_sample
sample_notified service e instance_id id p o configured fits held = (
  λ small.
      (sample_delivered service e instance_id id p o configured fits held (omega arith)).0 small,
  λ room. (sample_delivered service e instance_id id p o configured fits held room).1,
  λ short. ground (arith, header_beyond service e (payload_data p) short),
)
