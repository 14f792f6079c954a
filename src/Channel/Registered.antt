-- ===== src/Channel/Registered.antt =====
-- A client that disconnects is forgotten, and a new one gets a number of its own.
use inc_someip_gateway.Base.{
  ℕ, ◌+◌, ◌%◌, ◌^◌, ◌≡◌, ◌≤◌, ◌<◌, refl, true, ◌==◌, Option, none, some, if◌then◌else◌, is_some,
  arith, nat_eq,
}
use inc_someip_gateway.Map.{find}
use inc_someip_gateway.Map.Laws.{find-insert_or_assign, find-erase}
use inc_someip_gateway.Keys.{get_next_id}
use inc_someip_gateway.Channel.{
  emplace_connection, Connect, ClientInfo, Server, new_server, on_connect, on_disconnect,
  on_message,
}
use inc_someip_gateway.Channel.Announcements.{Event, connects, disconnects, gets, apply}

-- What the message passing library does: messages come from clients that are connected; and the
-- numbers do not run out.
abbrev pub IsPossible : {M : Type 0} → Event M → Server → Type 0
IsPossible (connects connection) s = s.next_client_id + 1 < 2 ^ 64
IsPossible (disconnects c) s = Unit
IsPossible (gets c identity connect message) s = is_some (find c s.connections) ≡ true

-- The servers that a sequence of such events leads to.
pub data Reach (M : Type 0) : Server → Type 0 where
  here : Reach M new_server
  next : {s : Server} → Reach M s → (e : Event M) → IsPossible e s → Reach M (apply e s).0

-- The numbers in use are below the next one, and only a connected client has left a trace.
pub record IsRegistered (s : Server) : Type 0 where
  pub bounded : (c : ℕ) → s.next_client_id ≤ c → find c s.connections ≡ none
  pub known :
      (c : ℕ)
      → find c s.connections ≡ none
      → (find c s.identifiers ≡ none) × (find c s.elements ≡ none)

module _ (M : Type 0) where
  connects-IsRegistered :
      (connection : ℕ) (s : Server)
      → IsPossible {M = M} (connects connection) s
      → IsRegistered s
      → IsRegistered (apply {M = M} (connects connection) s).0
  unfolding apply on_connect get_next_id emplace_connection
  connects-IsRegistered connection s small r =
      let free = r.bounded s.next_client_id (omega arith) in
      let wrap : (s.next_client_id + 1) % 2 ^ 64 ≡ s.next_client_id + 1 = omega arith in
      record {
        bounded = λ c h.
            ground (
              arith,
              r.bounded c,
              find-insert_or_assign c s.next_client_id connection s.connections,
            );
        known = λ c h.
            ground
              (arith, r.known c, find-insert_or_assign c s.next_client_id connection s.connections);
      }

  disconnects-IsRegistered :
      (c : ℕ) (s : Server) → IsRegistered s → IsRegistered (apply {M = M} (disconnects c) s).0
  unfolding apply on_disconnect
  disconnects-IsRegistered c s r = record {
    bounded = λ d h. ground (arith, r.bounded d, find-erase d c s.connections);
    known = λ d h. ground (
      arith,
      r.known d,
      find-erase d c s.connections,
      find-erase d c s.identifiers,
      find-erase d c s.elements,
    );
  }

  gets-IsRegistered :
      (c identity : ℕ) (connect : Option Connect) (message : M) (s : Server)
      → is_some (find c s.connections) ≡ true
      → IsRegistered s
      → IsRegistered (apply (gets c identity connect message) s).0
  unfolding apply on_message
  gets-IsRegistered c identity none message s there r = r
  gets-IsRegistered c identity (some connect) message s there r =
      let info : ClientInfo = record { identifier = connect.identifier; identity = identity } in
      record {
        bounded = λ d h. ground (arith, r.bounded d);
        known = λ d h. ground (
          arith,
          r.known d,
          find-insert_or_assign d c info s.identifiers,
          find-insert_or_assign d c connect.find_service_elements s.elements,
        );
      }

  Reach-IsRegistered : {s : Server} → Reach M s → IsRegistered s
  Reach-IsRegistered here = record {
    bounded = λ c h. unfold find in refl;
    known = λ c h. unfold find in (refl, refl);
  }
  Reach-IsRegistered (next r (connects connection) p) =
      connects-IsRegistered connection _ p (Reach-IsRegistered r)
  Reach-IsRegistered (next r (disconnects c) p) =
      disconnects-IsRegistered c _ (Reach-IsRegistered r)
  Reach-IsRegistered (next r (gets c identity connect message) p) =
      gets-IsRegistered c identity connect message _ p (Reach-IsRegistered r)

  -- In every state that a listening server reaches, a new connection gets a number that no client
  -- has, and for which no identifier and no services are kept from an earlier client. When a client
  -- disconnects nothing of it is left, and the other clients keep what they have.
  pub Reach-numbering :
      {s : Server}
      → Reach M s
      → s.next_client_id + 1 < 2 ^ 64
      → ((connection : ℕ)
          → let c = (on_connect {M = M} connection s).2 in
            let s' = (on_connect {M = M} connection s).0 in
            (find c s.connections ≡ none)
            × (find c s'.connections ≡ some connection)
            × (find c s'.identifiers ≡ none)
            × (find c s'.elements ≡ none))
        × ((c d : ℕ)
            → let s' = (on_disconnect {M = M} c s).0 in
              (find d s'.connections ≡ (if c == d then none else find d s.connections))
              × (find d s'.identifiers ≡ (if c == d then none else find d s.identifiers))
              × (find d s'.elements ≡ (if c == d then none else find d s.elements)))
  unfolding on_connect on_disconnect get_next_id emplace_connection
  Reach-numbering {s} reached small =
      let r = Reach-IsRegistered reached in
      (
        λ connection.
            let free = r.bounded s.next_client_id (omega arith) in
            let (no_identifier, no_elements) = r.known s.next_client_id free in
            let added =
              find-insert_or_assign s.next_client_id s.next_client_id connection s.connections in
            (free, ground arith, no_identifier, no_elements),
        λ c d.
            let gone = find-erase d c s.connections in
            let gone' = find-erase d c s.identifiers in
            let gone'' = find-erase d c s.elements in (ground arith, ground arith, ground arith),
      )
