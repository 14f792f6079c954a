-- ===== src/Runtime/Bridges/History.antt =====
-- The requests of the bridges against what was done: bridges as a set, and clients by their number.
use inc_someip_gateway.Base.{
  ℕ, ◌+◌, ◌-◌, ◌≡◌, refl, sym, ◌∙◌, Bool, true, false, not, ◌&&◌, ◌||◌, ◌==◌, List, [], ◌∷◌, ◌++◌,
  Option, none, some, if◌then◌else◌, ltb, length, is_some, Bool-cases, Option-cases, arith, inl,
  inr, nat_eq, subst,
}
use mathlib.Core.Option
use inc_someip_gateway.Map.{Map, find, insert_or_assign, keys}
use inc_someip_gateway.Map.Laws.{find-insert_or_assign, find-erase, find-map_values}
use inc_someip_gateway.Runtime.{Target, target_eq, target_beq, target_beq_iff}
use inc_someip_gateway.Runtime.Bridges.{
  Requests, Request, Bridge, BridgeState, contains, merge_results, rounds, register_bridge,
  emplace_all, share, subscribers_of, change_request, ask_bridges, get_bridge_requests,
  forget_bridge, cleanup_bridge, cleanup_request, reset_owner, register_service_bridge,
  bridge_service_requests, stop_registration, remove_service_requests,
}
use inc_someip_gateway.Runtime.Bridges.Rounds.{new_requests-keys, contains_found}
use inc_someip_gateway.Runtime.Bridges.Coverage.{
  no_others, has, has-emplace, has-emplace_all, merge_one, find-merge_results, find-change_request,
  asked-le, asked-all, ask_bridges-same,
}

-- A bridge comes or goes; a client connector starts or ends to look for a service.
pub data Action : Type 0 where
  registers : ℕ → ℕ → Action
  unregisters : ℕ → Action
  looks_for : Target → Action
  leaves : Target → Action

abbrev pub initial : BridgeState
initial = record { callbacks = []; requests = [] }

unfoldable pub apply : (ℕ → Target → ℕ) → Action → BridgeState → Option BridgeState
apply request_service (registers b identity) s =
    register_service_bridge request_service no_others 1 b identity s
apply request_service (unregisters b) s = some (stop_registration b s)
apply request_service (looks_for t) s = some (bridge_service_requests request_service no_others t s)
apply request_service (leaves t) s = some (remove_service_requests t s)

-- The actions, the latest first.
unfoldable pub run : (ℕ → Target → ℕ) → List Action → Option BridgeState
run request_service [] = some initial
run request_service (a ∷ earlier) = elim (run request_service earlier) [
  | none ↦ none
  | some s ↦ apply request_service a s
]

-- The set of the registered bridges.
abbrev pub is_registered : ℕ → List Action → Bool
is_registered b [] = false
is_registered b (registers c identity ∷ earlier) = c == b || is_registered b earlier
is_registered b (unregisters c ∷ earlier) = not (c == b) && is_registered b earlier
is_registered b (looks_for t ∷ earlier) = is_registered b earlier
is_registered b (leaves t ∷ earlier) = is_registered b earlier

-- The number of the client connectors that look for the service.
abbrev pub client_count : Target → List Action → ℕ
client_count t [] = 0
client_count t (registers c identity ∷ earlier) = client_count t earlier
client_count t (unregisters c ∷ earlier) = client_count t earlier
client_count t (looks_for u ∷ earlier) =
    if target_beq u t then client_count t earlier + 1 else client_count t earlier
client_count t (leaves u ∷ earlier) =
    if target_beq u t then client_count t earlier - 1 else client_count t earlier

abbrev pub owners_of : Option Request → ℕ
owners_of none = 0
owners_of (some r) = r.owners

-- The bridge holds a request in the map that the clients of the service share.
abbrev pub holds : ℕ → Option Request → Bool
holds b none = false
holds b (some r) = ltb 0 r.owners && has r.bridges b

-- A state that agrees with a set of bridges and a number of clients.
record Agrees (bridges : ℕ → Bool) (clients : Target → ℕ) (s : BridgeState) : Type 0 where
  registered : (b : ℕ) → is_some (find b s.callbacks) ≡ bridges b
  counted : (t : Target) → owners_of (find t s.requests) ≡ clients t
  covered : (t : Target) (b : ℕ) → holds b (find t s.requests) ≡ (ltb 0 (clients t) && bridges b)

holds-merge_one :
    (request_service : ℕ → Target → ℕ) (b c : ℕ) (todo : List Target) (t : Target)
    (o : Option Request)
    → ((r : Request) → o ≡ some r → contains todo t ≡ true)
    → (holds c (Option.map (merge_one request_service b todo t) o)
        ≡ (ltb 0 (owners_of o) && (b == c || holds c o)))
      × (owners_of (Option.map (merge_one request_service b todo t) o) ≡ owners_of o)
unfolding merge_one
holds-merge_one request_service b c todo t none there = (refl, refl)
holds-merge_one request_service b c todo t (some r) there =
    rw (there r refl) (ground (arith, has-emplace c b (request_service b t) r.bridges))

-- A request that one of its owners leaves.
left_by : Option Request → Option Request
left_by none = none
left_by (some r) = if r.owners - 1 == 0 then none else some (record r { owners = r.owners - 1 })

left_by-holds :
    (c : ℕ) (o : Option Request)
    → (owners_of (left_by o) ≡ owners_of o - 1)
      × (holds c (left_by o) ≡ (ltb 0 (owners_of o - 1) && holds c o))
unfolding left_by
left_by-holds c none = (refl, refl)
left_by-holds c (some r) = ground arith

shared-holds :
    (c : ℕ) (results : Map ℕ ℕ) (o : Option Request) {n : ℕ} {bridge : Bool}
    → owners_of o ≡ n
    → holds c o ≡ (ltb 0 n && bridge)
    → (length (share none o).subscribers ≡ 1 → has results c ≡ bridge)
    → (has results c ≡ true → bridge ≡ true)
    → (holds c
          (some (record (share none o) { bridges = emplace_all results (share none o).bridges }))
        ≡ bridge)
      × ((share none o).owners ≡ n + 1)
unfolding share find
shared-holds c results none owners held fresh known =
    ground (arith, fresh refl, has-emplace_all c results [])
shared-holds c results (some r) owners held fresh known = elim (Bool-cases (ltb 0 r.owners)) [
  | inl live ↦ rw live (ground (arith, known, has-emplace_all c results r.bridges))
  | inr dead ↦ rw dead (ground (arith, (rw dead at fresh) refl, has-emplace_all c results []))
]

module _ (request_service : ℕ → Target → ℕ) where
  register_bridge-alone :
      (b : ℕ) (requests : Requests)
      → register_bridge request_service no_others 1 b requests
        ≡ some (merge_results request_service b (keys requests) requests, keys requests ++ [])
  unfolding register_bridge rounds
  register_bridge-alone b requests = ground (arith, new_requests-keys requests)

  registers-Agrees :
      (b identity : ℕ) {bridges : ℕ → Bool} {clients : Target → ℕ} (s : BridgeState)
      → Agrees bridges clients s
      → (s' : BridgeState) × (apply request_service (registers b identity) s ≡ some s')
        × Agrees (λ c. b == c || bridges c) clients s'
  unfolding apply register_service_bridge
  registers-Agrees b identity {bridges} {clients} s a =
      let todo : List Target = keys s.requests in
      let merged : Requests = merge_results request_service b todo s.requests in
      let bridge : Bridge = record { identity = identity; reported = [] } in
      let step = λ (t : Target) (c : ℕ).
        holds-merge_one request_service b c todo t (find t s.requests)
          (λ r there. contains_found t s.requests r there) in
      (
        record { callbacks = insert_or_assign b bridge s.callbacks; requests = merged },
        rw (register_bridge-alone b s.requests, apply, register_service_bridge) refl,
        record {
          registered =
              λ c. ground (arith, find-insert_or_assign c b bridge s.callbacks, a.registered c);
          counted = λ t.
              rw (find-merge_results request_service b todo t s.requests)
                ((step t 0).1 ∙ a.counted t);
          covered = λ t c.
              rw (find-merge_results request_service b todo t s.requests)
                (ground (arith, (step t c).0, a.counted t, a.covered t c));
        },
      )

  unregisters-Agrees :
      (b : ℕ) {bridges : ℕ → Bool} {clients : Target → ℕ} (s : BridgeState)
      → Agrees bridges clients s
      → Agrees (λ c. not (b == c) && bridges c) clients (stop_registration b s)
  unfolding stop_registration cleanup_bridge
  unregisters-Agrees b {bridges} {clients} s a = record {
    registered = λ c. ground (arith, find-erase c b s.callbacks, a.registered c);
    counted = λ t.
        rw (find-map_values (forget_bridge b) t s.requests)
          (owners_forgotten (find t s.requests) ∙ a.counted t);
    covered = λ t c.
        rw (find-map_values (forget_bridge b) t s.requests)
          (ground (arith, holds_forgotten c (find t s.requests), a.covered t c));
  }
    where
      owners_forgotten :
          (o : Option Request) → owners_of (Option.map (forget_bridge b) o) ≡ owners_of o
      owners_forgotten none = refl
      owners_forgotten (some r) = unfold forget_bridge in ground arith

      holds_forgotten :
          (c : ℕ) (o : Option Request)
          → holds c (Option.map (forget_bridge b) o) ≡ (not (b == c) && holds c o)
      holds_forgotten c none = ground arith
      holds_forgotten c (some r) = unfold forget_bridge in ground (arith, find-erase c b r.bridges)

  -- What the bridges are asked, and the request that the new client shares.
  abbrev asked : Target → BridgeState → Map ℕ ℕ
  asked t s =
      let shared = insert_or_assign t (share none (find t s.requests)) s.requests in
      (ask_bridges request_service no_others none t 0 s.callbacks shared []).1

  abbrev granted : Target → BridgeState → Request
  granted t s =
      let r = share none (find t s.requests) in
      record r { bridges = emplace_all (asked t s) r.bridges }

  find-bridge_service_requests :
      (t u : Target) (s : BridgeState)
      → find u (bridge_service_requests request_service no_others t s).requests
        ≡ (if target_beq t u then some (granted t s) else find u s.requests)
  unfolding bridge_service_requests get_bridge_requests
  find-bridge_service_requests t u s =
      let r : Request = share none (find t s.requests) in
      let shared : Requests = insert_or_assign t r s.requests in
      rw (ask_bridges-same request_service none t 0 s.callbacks shared []) (
        rw
          (find-change_request (λ q. record q { bridges = emplace_all (asked t s) q.bridges }) t u
            shared)
          (rw (find-insert_or_assign u t r s.requests) (ground arith)))

  -- Without a live request every bridge is asked.
  asked_fresh :
      (t : Target) (c : ℕ) (s : BridgeState)
      → length (share none (find t s.requests)).subscribers ≡ 1
      → has (asked t s) c ≡ is_some (find c s.callbacks)
  asked_fresh t c s one =
      let r : Request = share none (find t s.requests) in
      let all = asked-all request_service t 0 s.callbacks (insert_or_assign t r s.requests) [] c (
        rw (find-insert_or_assign t t r s.requests, (target_beq_iff t t).1 refl)
          (unfold subscribers_of in one)) in
      unfold find in ground arith

  asked_le :
      (t : Target) (c : ℕ) (s : BridgeState)
      → has (asked t s) c ≡ true
      → is_some (find c s.callbacks) ≡ true
  asked_le t c s h =
      let r : Request = share none (find t s.requests) in
      let le =
        asked-le request_service none t 0 s.callbacks (insert_or_assign t r s.requests) [] c h in
      unfold find in ground arith

  granted-holds :
      (t : Target) (c : ℕ) {bridges : ℕ → Bool} {clients : Target → ℕ} (s : BridgeState)
      → Agrees bridges clients s
      → (holds c (some (granted t s)) ≡ bridges c) × ((granted t s).owners ≡ clients t + 1)
  granted-holds t c s a =
      shared-holds c (asked t s) (find t s.requests) (a.counted t) (a.covered t c)
        (λ one. asked_fresh t c s one ∙ a.registered c)
        (λ h. sym (a.registered c) ∙ asked_le t c s h)

  looks_for-Agrees :
      (t : Target) {bridges : ℕ → Bool} {clients : Target → ℕ} (s : BridgeState)
      → Agrees bridges clients s
      → Agrees bridges
          (λ u. if target_beq t u then clients u + 1 else clients u)
          (bridge_service_requests request_service no_others t s)
  looks_for-Agrees t {bridges} {clients} s a = record {
    registered = λ c. unfold bridge_service_requests in a.registered c;
    counted = λ u. rw (find-bridge_service_requests t u s) (elim (Bool-cases (target_beq t u)) [
      | inl same ↦ rw same (
          subst (λ v. (granted t s).owners ≡ clients v + 1) ((target_beq_iff t u).0 same)
            (granted-holds t 0 s a).1)
      | inr other ↦ rw other (a.counted u)
    ]);
    covered = λ u c. rw (find-bridge_service_requests t u s) (elim (Bool-cases (target_beq t u)) [
      | inl same ↦ rw same (ground (arith, granted-holds t c s a))
      | inr other ↦ rw other (a.covered u c)
    ]);
  }

  find-remove_service_requests :
      (t u : Target) (s : BridgeState)
      → find u (remove_service_requests t s).requests
        ≡ (if target_beq t u then left_by (find u s.requests) else find u s.requests)
  unfolding remove_service_requests cleanup_request reset_owner left_by
  find-remove_service_requests t u s =
      let drop = λ (r : Request). let q : Request = record r { owners = r.owners - 1 } in q in
      let changed : Requests = change_request drop t s.requests in
      let at_u = find-change_request drop t u s.requests in
      let at_t = find-change_request drop t t s.requests in
      elim (Option-cases (find t s.requests)) [
        | inl absent ↦ ground (arith, at_u, at_t, target_beq_iff t t, target_beq_iff t u)
        | inr (r, there) ↦
            ground
              (arith, at_u, at_t, target_beq_iff t t, target_beq_iff t u, find-erase u t changed)
      ]

  leaves-Agrees :
      (t : Target) {bridges : ℕ → Bool} {clients : Target → ℕ} (s : BridgeState)
      → Agrees bridges clients s
      → Agrees bridges
          (λ u. if target_beq t u then clients u - 1 else clients u)
          (remove_service_requests t s)
  unfolding remove_service_requests
  leaves-Agrees t {bridges} {clients} s a = record {
    registered = a.registered;
    counted = λ u.
        rw (find-remove_service_requests t u s)
          (ground (arith, a.counted u, left_by-holds 0 (find u s.requests)));
    covered = λ u c.
        rw (find-remove_service_requests t u s)
          (ground (arith, a.counted u, a.covered u c, left_by-holds c (find u s.requests)));
  }

  apply-Agrees :
      (a : Action) (earlier : List Action) (s : BridgeState)
      → Agrees (λ b. is_registered b earlier) (λ t. client_count t earlier) s
      → (s' : BridgeState) × (apply request_service a s ≡ some s')
        × Agrees (λ b. is_registered b (a ∷ earlier)) (λ t. client_count t (a ∷ earlier)) s'
  apply-Agrees (registers b identity) earlier s h = registers-Agrees b identity s h
  apply-Agrees (unregisters b) earlier s h =
      (stop_registration b s, unfold apply in refl, unregisters-Agrees b s h)
  apply-Agrees (looks_for t) earlier s h = (
    bridge_service_requests request_service no_others t s,
    unfold apply in refl,
    looks_for-Agrees t s h,
  )
  apply-Agrees (leaves t) earlier s h =
      (remove_service_requests t s, unfold apply in refl, leaves-Agrees t s h)

  run-Agrees :
      (actions : List Action)
      → (s : BridgeState) × (run request_service actions ≡ some s)
        × Agrees (λ b. is_registered b actions) (λ t. client_count t actions) s
  unfolding run
  run-Agrees [] = (
    initial,
    refl,
    record {
      registered = λ b. unfold find in refl;
      counted = λ t. unfold find in refl;
      covered = λ t b. unfold find in refl;
    },
  )
  run-Agrees (a ∷ earlier) =
      let (s, before, agrees) = run-Agrees earlier in
      let (s', step, agrees') = apply-Agrees a earlier s agrees in
      (s', rw (before, run) step, agrees')

  -- In whatever order bridges come and go and client connectors start and end to look for services,
  -- with no other thread between the steps, each step ends, a service has as many owners of its
  -- request as clients look for it, and a bridge holds the request exactly when it is registered
  -- and a client looks for the service.
  pub run-holds :
      (actions : List Action)
      → (s : BridgeState) × (run request_service actions ≡ some s)
        × ((t : Target) → owners_of (find t s.requests) ≡ client_count t actions)
        × ((t : Target) (b : ℕ)
            → holds b (find t s.requests)
              ≡ (ltb 0 (client_count t actions) && is_registered b actions))
  run-holds actions =
      let (s, ends, agrees) = run-Agrees actions in (s, ends, agrees.counted, agrees.covered)
