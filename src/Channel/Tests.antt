-- ===== src/Channel/Tests.antt =====
-- A server with two clients, of which one leaves, and a client whose connection is accepted.
use inc_someip_gateway.Base.{
  ℕ, ◌≡◌, List, [], ◌∷◌, some, none, if◌then◌else◌, ◌==◌, true, false, refl, arith, nat_eq,
}
use inc_someip_gateway.Map.{Map, find}
use inc_someip_gateway.Keys.{get_next_id}
use inc_someip_gateway.Channel.{Client, Connect, Server, new_server, on_connect, on_disconnect}
use inc_someip_gateway.Channel.Announcements.{
  Event, connects, disconnects, gets, apply, run, replay, view_of, server_replay,
}
use inc_someip_gateway.Channel.Peer.{
  Happening, receives_message, advance, is_unexpected, IsAgreed, advance-IsAgreed,
}
use inc_someip_gateway.Channel.Registered.{Reach, here, next, Reach-numbering}

abbrev hello : Connect
hello = record { identifier = b'a' ∷ []; find_service_elements = 5 ∷ []; is_valid = true }

abbrev events : List (Event ℕ)
events = connects 70 ∷ connects 71 ∷ gets 0 9 (some hello) 1 ∷ disconnects 0 ∷ []

server_replay_example :
    replay (run events new_server).1 (view_of new_server) ≡ some (view_of (run events new_server).0)
server_replay_example = server_replay events new_server

abbrev one_client : Server
one_client = (apply {M = ℕ} (connects 70) new_server).0

one_client-Reach : Reach ℕ one_client
one_client-Reach = next here (connects 70) (omega arith)

Reach-numbering_example :
    ((connection : ℕ)
      → let c = (on_connect {M = ℕ} connection one_client).2 in
        let s' = (on_connect {M = ℕ} connection one_client).0 in
        (find c one_client.connections ≡ none)
        × (find c s'.connections ≡ some connection)
        × (find c s'.identifiers ≡ none)
        × (find c s'.elements ≡ none))
    × ((c d : ℕ)
        → let s' = (on_disconnect {M = ℕ} c one_client).0 in
          (find d s'.connections ≡ (if c == d then none else find d one_client.connections))
          × (find d s'.identifiers ≡ (if c == d then none else find d one_client.identifiers))
          × (find d s'.elements ≡ (if c == d then none else find d one_client.elements)))
Reach-numbering_example =
    Reach-numbering ℕ one_client-Reach (unfold apply on_connect get_next_id in omega arith)

abbrev unconnected : Client
unconnected = record { connected = false; stopped = false }

abbrev accepted : Happening ℕ
accepted = receives_message 70 (some (some true)) 9

advance-IsAgreed_example :
    (is_unexpected accepted unconnected ≡ true → advance accepted unconnected [] ≡ none)
    × (is_unexpected accepted unconnected ≡ false
        → (c' : Client) × (m' : Map ℕ ℕ) × (advance accepted unconnected [] ≡ some (c', m'))
          × IsAgreed c' m')
advance-IsAgreed_example = advance-IsAgreed accepted unconnected [] (unfold find in refl)
