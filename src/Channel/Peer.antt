-- ===== src/Channel/Peer.antt =====
-- What the client around the binding tells it of the only connection.
use inc_someip_gateway.Base.{
  ℕ, ◌≡◌, refl, Bool, true, false, List, [], ◌∷◌, Option, none, some, is_some, arith, nat_eq,
  Bool-cases, inl, inr,
}
use inc_someip_gateway.Map.{Map, find, erase, insert_or_assign}
use inc_someip_gateway.Map.Laws.{find-erase, find-insert_or_assign}
use inc_someip_gateway.Binding.{emplace_client}
use inc_someip_gateway.Channel.{
  Call, adds_client, removes_client, State, ready, starting, stopping, Client, on_state_change,
  on_receive_message, handle_connect_reply_message, is_final,
}

-- What happens to a client; a reply is as for `on_receive_message`.
pub data Happening (M : Type 0) : Type 0 where
  changes : State → Happening M
  receives_message : ℕ → Option (Option Bool) → M → Happening M

-- The client counts as connected exactly when the binding has its connection.
abbrev pub IsAgreed : Client → Map ℕ ℕ → Type 0
IsAgreed c m = is_some (find 0 m) ≡ c.connected

module _ {M : Type 0} where
  -- `none` for the failed assertion that the server accepts.
  unfoldable pub happen : Happening M → Client → Option (Client × List (Call M))
  happen (changes state) c = some (on_state_change state c)
  happen (receives_message channel reply message) c = on_receive_message channel reply message c

  -- The clients that the binding has after the calls; `none` for the failed assertion that a client
  -- that is added is new.
  unfoldable pub peers : List (Call M) → Map ℕ ℕ → Option (Map ℕ ℕ)
  peers [] m = some m
  peers (adds_client c channel ∷ rest) m = elim (emplace_client c channel m) [
    | none ↦ none
    | some m' ↦ peers rest m'
  ]
  peers (removes_client c ∷ rest) m = peers rest (erase c m)
  peers (_ ∷ rest) m = peers rest m

  told : Map ℕ ℕ → Client × List (Call M) → Option (Client × Map ℕ ℕ)
  told m (c, calls) = elim (peers calls m) [ none ↦ none | some m' ↦ some (c, m') ]

  -- A step of the client, with what the binding does.
  unfoldable pub advance : Happening M → Client → Map ℕ ℕ → Option (Client × Map ℕ ℕ)
  unfolding told
  advance e c m = elim (happen e c) [ none ↦ none | some r ↦ told m r ]

  -- A reply that refuses the connection, or one that accepts it again.
  abbrev pub is_unexpected : Happening M → Client → Bool
  is_unexpected (receives_message channel (some (some false)) message) c = true
  is_unexpected (receives_message channel (some (some true)) message) c = c.connected
  is_unexpected _ c = false

module _ (M : Type 0) where
  changed :
      (state : State) (c : Client) (m : Map ℕ ℕ)
      → IsAgreed c m
      → (c' : Client) × (m' : Map ℕ ℕ) × (advance {M = M} (changes state) c m ≡ some (c', m'))
        × IsAgreed c' m'
  unfolding advance told happen on_state_change peers
  changed ready c m h = (c, m, refl, h)
  changed (State.stopped reason) c m h = elim (Bool-cases (is_final reason)) [
    | inl final ↦ (record c { stopped = true }, m, ground arith, h)
    | inr again ↦ (c, m, ground arith, h)
  ]
  changed starting c m h =
      (record c { connected = false }, erase 0 m, refl, ground (arith, find-erase 0 0 m))
  changed stopping c m h =
      (record c { connected = false }, erase 0 m, refl, ground (arith, find-erase 0 0 m))

module _ {M : Type 0} where
  -- If the client counts as connected exactly when the binding has its connection: a step fails an
  -- assertion where the server refuses the connection, or accepts it though the client is connected
  -- already; after any other step the client counts as connected exactly when the binding has its
  -- connection.
  pub advance-IsAgreed :
      (e : Happening M) (c : Client) (m : Map ℕ ℕ)
      → IsAgreed c m
      → (is_unexpected e c ≡ true → advance e c m ≡ none)
        × (is_unexpected e c ≡ false
            → (c' : Client) × (m' : Map ℕ ℕ) × (advance e c m ≡ some (c', m')) × IsAgreed c' m')
  unfolding advance told happen on_receive_message handle_connect_reply_message peers emplace_client
  advance-IsAgreed (changes state) c m h = (λ no'. cc, λ fine. changed M state c m h)
  advance-IsAgreed (receives_message channel none message) c m h =
      (λ no'. cc, λ fine. (c, m, refl, h))
  advance-IsAgreed (receives_message channel (some none) message) c m h =
      (λ no'. cc, λ fine. (c, m, refl, h))
  advance-IsAgreed (receives_message channel (some (some false)) message) c m h =
      (λ no'. refl, λ fine. cc)
  advance-IsAgreed (receives_message channel (some (some true)) message) c m h = (
    λ again. ground arith,
    λ fine. (
      record c { connected = true },
      insert_or_assign 0 channel m,
      ground arith,
      ground (arith, find-insert_or_assign 0 0 channel m),
    ),
  )
