-- ===== src/Someip/Reception.antt =====
-- A message of the network becomes a sample of the local clients.
use inc_someip_gateway.Base.{
  ℕ, ◌+◌, ◌-◌, ◌≡◌, ◌≤◌, ◌<◌, refl, sym, ap, ◌∙◌, true, false, List, [], ◌∷◌, ◌++◌, ltb, length,
  arith, drop, some, length-append, nat_eq,
}
use inc_someip_gateway.Strings.Fixed.{take}
use inc_someip_gateway.Map.{Map, find}
use inc_someip_gateway.Serializer.{ok, PreSerialized, deserialize, copy_to}
use inc_someip_gateway.Serializer.Roundtrip.{message, IsHeld, length-copy_to}
use inc_someip_gateway.Someip.{write_bytes, two_bytes, four_bytes, faults, updates, sends}
use inc_someip_gateway.Someip.Payload.{Payload, payload_data, shrink, with_data}
use inc_someip_gateway.Someip.Payload.Shrinking.{take_upto, drop_after}
use inc_someip_gateway.Someip.Writing.{write_bytes-at, split_at}
use inc_someip_gateway.Someip.Samples.{
  EventConfig, EventContext, has_name, after_deserialize, forward_event,
}
use inc_someip_gateway.Someip.Network.{VsomeipMessage, message_header, handle_message}
use inc_someip_gateway.Someip.Delivery.{IsPayload, filled}

take-copy_all : (xs ys : List ℕ) → length xs ≤ length ys → take (length xs) (copy_to xs ys) ≡ xs
unfolding take copy_to
take-copy_all [] ys h = refl
take-copy_all (x ∷ xs) [] h = absurd (omega arith)
take-copy_all (x ∷ xs) (y ∷ ys) h = ap (◌∷◌ x) (take-copy_all xs ys (omega arith))

take_whole : (xs : List ℕ) → take (length xs) xs ≡ xs
unfolding take
take_whole [] = refl
take_whole (x ∷ xs) = ap (◌∷◌ x) (take_whole xs)

length-message_header : (id : ℕ) (msg : VsomeipMessage) → length (message_header id msg) ≡ 16
unfolding message_header two_bytes four_bytes
length-message_header id msg = refl

module _ (id event_id : ℕ) (p : Payload) (msg : VsomeipMessage) where
  header_replaced :
      16 ≤ length (payload_data p)
      → (rest : List ℕ) × (length rest ≡ length (payload_data p) - 16)
        × (write_bytes 0 (message_header event_id msg) (payload_data p)
            ≡ some (message_header event_id msg ++ rest))
  header_replaced room =
      let (old, rest, lo, lr, whole) = split_at 16 (payload_data p) room in
      (
        rest,
        lr,
        ap (write_bytes 0 (message_header event_id msg)) whole
            ∙ write_bytes-at [] (message_header event_id msg) old rest 0 refl
                (lo ∙ sym (length-message_header event_id msg)),
      )

  handled :
      (rest : List ℕ)
      → write_bytes 0 (message_header event_id msg) (payload_data p)
        ≡ some (message_header event_id msg ++ rest)
      → (length msg.payload ≤ length rest
          → handle_message id event_id (some p) msg
            ≡ updates id
                (shrink
                  (16 + length msg.payload)
                  (with_data (message_header event_id msg ++ copy_to msg.payload rest) p)).0)
        × (length rest < length msg.payload → handle_message id event_id (some p) msg ≡ faults)
  unfolding handle_message
  handled rest written =
      let h : List ℕ = message_header event_id msg in
      let lh = length-message_header event_id msg in
      let n : length (h ++ rest) - 16 ≡ length rest = omega (arith, length-append h rest) in
      let d : drop 16 (h ++ rest) ≡ rest = drop_after 16 h rest lh in
      let t : take 16 (h ++ rest) ≡ h = take_upto 16 h rest lh in
      (
        λ fits.
            let e : ltb (length rest) (length msg.payload) ≡ false = ground arith in
            rw (written, handle_message) (rw (n, d, t) (rw e refl)),
        λ large.
            let e : ltb (length rest) (length msg.payload) ≡ true = ground arith in
            rw (written, handle_message) (rw (n, d, t) (rw e refl)),
      )

delivered :
    (contexts : Map ℕ EventContext) (ipc_events : List (List ℕ)) (id max_size : ℕ) (e : EventConfig)
    (p : Payload) (h msg : List ℕ) (target : PreSerialized)
    → find id contexts ≡ some (record { config = e; serializer = some max_size })
    → has_name ipc_events e.event_name ≡ true
    → length h ≡ 16
    → payload_data p ≡ h ++ msg
    → length msg ≤ max_size
    → forward_event contexts ipc_events id p (some target)
      ≡ sends (record { size = length msg; bytes = copy_to msg target.bytes })
unfolding forward_event
delivered contexts ipc_events id max_size e p h msg target there named lh content small =
    let long : ltb (length (payload_data p)) 16 ≡ false =
      rw content (ground (arith, length-append h msg)) in
    let tail : drop 16 (payload_data p) ≡ msg = ap (drop 16) content ∙ drop_after 16 h msg lh in
    let fits : ltb max_size (length msg) ≡ false = ground arith in
    let read : deserialize (some max_size) (some msg) (length msg) (some target)
        ≡ (ok, some (record { size = length msg; bytes = copy_to msg target.bytes })) =
      unfold deserialize in rw (fits, take_whole msg) refl in
    rw (there, forward_event)
      (rw named (rw (long, tail) (rw read (unfold after_deserialize in refl))))

-- A message of vsomeip that fits behind the header in the payload that was allocated updates the
-- event. Where the client of the event has its serializer, which allows the length of the message,
-- and a skeleton that has the event and gives out a sample with room for it, that sample is sent and
-- holds exactly the payload of the message. A message that does not fit is written past the end of
-- the payload.
pub message_sampled :
    (contexts : Map ℕ EventContext) (ipc_events : List (List ℕ)) (id event_id max_size : ℕ)
    (e : EventConfig) (p : Payload) (msg : VsomeipMessage) (target : PreSerialized)
    → find id contexts ≡ some (record { config = e; serializer = some max_size })
    → has_name ipc_events e.event_name ≡ true
    → IsPayload p
    → 16 ≤ length (payload_data p)
    → length msg.payload ≤ max_size
    → max_size ≤ length target.bytes
    → (16 + length msg.payload ≤ length (payload_data p)
        → (p' : Payload) × (o : PreSerialized) × (handle_message id event_id (some p) msg
            ≡ updates id p')
          × (forward_event contexts ipc_events id p' (some target) ≡ sends o)
          × (message o ≡ msg.payload)
          × IsHeld o)
      × (length (payload_data p) < 16 + length msg.payload
          → handle_message id event_id (some p) msg ≡ faults)
message_sampled contexts ipc_events id event_id max_size e p msg target there named fits room small
      space =
    let (rest, lr, written) = header_replaced id event_id p msg room in
    let h : List ℕ = message_header event_id msg in
    let lh = length-message_header event_id msg in
    let b : List ℕ = copy_to msg.payload rest in
    let p' : Payload = (shrink (16 + length msg.payload) (with_data (h ++ b) p)).0 in
    (
      λ enough.
          let content : payload_data p' ≡ h ++ msg.payload =
            filled h b (length msg.payload) p fits lh
              (omega (arith, length-copy_to msg.payload rest))
            ∙ ap (◌++◌ h) (take-copy_all msg.payload rest (omega arith)) in
          (
            p',
            record { size = length msg.payload; bytes = copy_to msg.payload target.bytes },
            (handled id event_id p msg rest written).0 (omega arith),
            delivered contexts ipc_events id max_size e p' h msg.payload target there named lh
                content small,
            take-copy_all msg.payload target.bytes (omega arith),
            omega (arith, length-copy_to msg.payload target.bytes),
          ),
      λ large. (handled id event_id p msg rest written).1 (omega arith),
    )
