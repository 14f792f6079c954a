-- ===== src/Channel/Announcements.antt =====
-- What a server tells of the services that its clients look for, and of its clients.
use inc_someip_gateway.Base.{
  ℕ, ◌≡◌, refl, ◌∙◌, true, false, List, [], ◌∷◌, ◌++◌, Option, none, some, if◌then◌else◌, is_empty,
  nat_eq, Bool-cases, Option-cases, inl, inr,
}
use inc_someip_gateway.Strings.{list_beq, string_eq}
use inc_someip_gateway.Map.{Map, find, insert_or_assign, erase}
use inc_someip_gateway.Channel.{
  emplace_connection, Call, adds_client, removes_client, find_service_change, Connect, Server,
  on_connect, on_disconnect, on_message,
}

-- What happens to a server that listens.
pub data Event (M : Type 0) : Type 0 where
  connects : ℕ → Event M
  disconnects : ℕ → Event M
  gets : ℕ → ℕ → Option Connect → M → Event M

-- What the calls say: the services that each client looks for, and the connections of the binding.
-- `none` if services are withdrawn that were not the last that were announced for the client. The
-- assertion of the binding that a connection has a new number is not part of the view; Registered is
-- about these numbers.
pub record View : Type 0 where
  pub announced : Map ℕ (List ℕ)
  pub peers : Map ℕ ℕ

abbrev pub view_of : Server → View
view_of s = record { announced = s.elements; peers = s.connections }

unfoldable pub withdraw : ℕ → List ℕ → View → Option View
withdraw c elements v = elim (find c v.announced) [
  | none ↦ none
  | some last ↦
      if list_beq last elements then some (record v { announced = erase c v.announced }) else none
]

module _ {M : Type 0} where
  unfoldable pub apply : Event M → Server → Server × List (Call M)
  apply (connects connection) s = let r = on_connect connection s in (r.0, r.1)
  apply (disconnects c) s = on_disconnect c s
  apply (gets c identity connect message) s = on_message c identity connect message s

  unfoldable pub run : List (Event M) → Server → Server × List (Call M)
  run [] s = (s, [])
  run (e ∷ rest) s =
      let (s', calls) = apply e s in let (s'', later) = run rest s' in (s'', calls ++ later)

  unfoldable pub replay : List (Call M) → View → Option View
  replay [] v = some v
  replay (adds_client c connection ∷ rest) v =
      replay rest (record v { peers = emplace_connection c connection v.peers })
  replay (removes_client c ∷ rest) v = replay rest (record v { peers = erase c v.peers })
  replay (find_service_change c elements true ∷ rest) v =
      replay rest (record v { announced = insert_or_assign c elements v.announced })
  replay (find_service_change c elements false ∷ rest) v = elim (withdraw c elements v) [
    | none ↦ none
    | some v' ↦ replay rest v'
  ]
  replay (_ ∷ rest) v = replay rest v

  connects-replay :
      (connection : ℕ) (rest : List (Call M)) (s : Server)
      → replay ((apply (connects connection) s).1 ++ rest) (view_of s)
        ≡ replay rest (view_of (apply (connects connection) s).0)
  unfolding apply on_connect replay
  connects-replay connection rest s = refl

  disconnects-replay :
      (c : ℕ) (rest : List (Call M)) (s : Server)
      → replay ((apply (disconnects c) s).1 ++ rest) (view_of s)
        ≡ replay rest (view_of (apply (disconnects c) s).0)
  unfolding apply on_disconnect replay withdraw find erase
  disconnects-replay c rest s = elim (Option-cases (find c s.elements)) [
    | inl absent ↦ rw (absent, on_disconnect) refl
    | inr (elements, there) ↦
        rw (there, on_disconnect)
          (rw (there, withdraw) (rw ((string_eq.beq_iff elements elements).1 refl) refl))
  ]

  gets-replay :
      (c identity : ℕ) (connect : Option Connect) (message : M) (rest : List (Call M)) (s : Server)
      → replay ((apply (gets c identity connect message) s).1 ++ rest) (view_of s)
        ≡ replay rest (view_of (apply (gets c identity connect message) s).0)
  unfolding apply on_message replay
  gets-replay c identity none message rest s = refl
  gets-replay c identity (some connect) message rest s = elim (Bool-cases connect.is_valid) [
    | inr invalid ↦ rw (invalid, on_message) refl
    | inl valid ↦ elim (Bool-cases (is_empty connect.find_service_elements)) [
      | inl none_wanted ↦ rw (valid, on_message) (rw none_wanted refl)
      | inr wanted ↦ rw (valid, on_message) (rw wanted refl)
    ]
  ]

  apply-replay :
      (e : Event M) (rest : List (Call M)) (s : Server)
      → replay ((apply e s).1 ++ rest) (view_of s) ≡ replay rest (view_of (apply e s).0)
  apply-replay (connects connection) rest s = connects-replay connection rest s
  apply-replay (disconnects c) rest s = disconnects-replay c rest s
  apply-replay (gets c identity connect message) rest s =
      gets-replay c identity connect message rest s

  -- Whatever clients connect, send and disconnect, the calls of the server say at any time which
  -- services each client looks for, and what is withdrawn is what was announced last for the client;
  -- the binding is told of exactly the connections that the server has.
  pub server_replay :
      (events : List (Event M)) (s : Server)
      → replay (run events s).1 (view_of s) ≡ some (view_of (run events s).0)
  unfolding run
  server_replay [] s = unfold replay in refl
  server_replay (e ∷ rest) s =
      apply-replay e (run rest (apply e s).0).1 s ∙ server_replay rest (apply e s).0
