-- ===== src/Connector/Reports.antt =====
-- What the application at a server connector is told of the subscriptions and of the requests.
use inc_someip_gateway.Base.{
  ℕ, ◌<◌, ◌≡◌, refl, sym, ap, ◌∙◌, Bool, true, false, not, ◌&&◌, List, [], ◌∷◌, ◌++◌, Option, none,
  some, if◌then◌else◌, set, length, arith, length-set,
}
use inc_someip_gateway.Connector.{
  Server, Mode, update, update_and_initial_value, Call, unsubscribe_event, remove_client,
  receive_subscribe, receive_unsubscribe, receive_request_event_update, update_event,
  update_requested_event, is_update_requester, send, enable, stop, event_requested_update,
}
use inc_someip_gateway.Connector.Table.{
  client_at-set, client_at_beyond, IsWellformed, IsQuiet, stop-IsQuiet, stop-IsWellformed,
  stop-disabled, is_subscribed, is_requested, changes, request_count, changes-append, change,
  unsubscribe_events-IsKept, unsubscribe_events-effect,
}

-- What a client and the application do to an enabled server.
pub data Operation : Type 0 where
  subscribes : ℕ → ℕ → Mode → Operation
  unsubscribes : ℕ → Operation
  requests : ℕ → ℕ → Operation
  updates : ℕ → List ℕ → Operation
  updates_requested : ℕ → List ℕ → Operation
  goes : Operation

-- The server afterwards, and the calls.
unfoldable pub apply : Operation → Server → Server × List Call
apply (subscribes c id mode) s = let r = receive_subscribe c id mode s in (r.0, r.1)
apply (unsubscribes id) s = let r = receive_unsubscribe id s in (r.0, r.1)
apply (requests c id) s = let r = receive_request_event_update c id s in (r.0, r.1)
apply (updates id payload) s = (s, (update_event id payload s).0)
apply (updates_requested id payload) s = let r = update_requested_event id payload s in (r.0, r.1)
apply goes s = remove_client s

-- The calls tell of each change of the table of an event, and of nothing else.
abbrev pub Reported : ℕ → Server → Server × List Call → Type 0
Reported e s r =
    (changes e r.1 ≡ change (is_subscribed e s) (is_subscribed e r.0))
    × (request_count e r.1 ≡ (if not (is_requested e s) && is_requested e r.0 then 1 else 0))

subscribe-Reported :
    (c id e : ℕ) (mode : Mode) (s : Server)
    → IsWellformed s
    → Reported e s (apply (subscribes c id mode) s)
unfolding apply receive_subscribe is_update_requester
subscribe-Reported c id e update s w = ground (arith, client_at-set s.subscriber id e (some c))
subscribe-Reported c id e update_and_initial_value s w = ground (
  arith,
  client_at-set s.subscriber id e (some c),
  client_at-set s.update_requester id e (some c),
)

unsubscribe-Reported : (id e : ℕ) (s : Server) → Reported e s (apply (unsubscribes id) s)
unfolding apply receive_unsubscribe unsubscribe_event
unsubscribe-Reported id e s = ground (
  arith,
  client_at-set s.subscriber id e none,
  client_at-set s.update_requester id e none,
  client_at_beyond s.subscriber e,
  client_at_beyond s.update_requester e,
)

request-Reported : (c id e : ℕ) (s : Server) → Reported e s (apply (requests c id) s)
unfolding apply receive_request_event_update
request-Reported c id e s = ground (arith, client_at-set s.update_requester id e (some c))

update-Reported :
    (id e : ℕ) (payload : List ℕ) (s : Server) → Reported e s (apply (updates id payload) s)
unfolding apply update_event send
update-Reported id e payload s = ground arith

update_requested-Reported :
    (id e : ℕ) (payload : List ℕ) (s : Server)
    → Reported e s (apply (updates_requested id payload) s)
unfolding apply update_requested_event send
update_requested-Reported id e payload s =
    ground
      (arith, client_at-set s.update_requester id e none, client_at_beyond s.update_requester e)

goes-Reported : (e : ℕ) (s : Server) → IsWellformed s → Reported e s (apply goes s)
unfolding apply remove_client
goes-Reported e s w =
    let (subs, reqs, told, none_asked) = unsubscribe_events-effect s.num_events 0 e s in
    ground (arith, client_at_beyond s.subscriber e, client_at_beyond s.update_requester e)

-- An operation keeps the tables as long as there are events.
pub apply-IsWellformed : (o : Operation) (s : Server) → IsWellformed s → IsWellformed (apply o s).0
unfolding apply receive_subscribe receive_unsubscribe receive_request_event_update update_event
    update_requested_event unsubscribe_event is_update_requester
apply-IsWellformed (subscribes c id update) s w =
    ground (arith, length-set s.subscriber id (some c))
apply-IsWellformed (subscribes c id update_and_initial_value) s w = ground (
  arith,
  length-set s.subscriber id (some c),
  length-set s.update_requester id (some c),
  length-set s.modes id update_and_initial_value,
)
apply-IsWellformed (unsubscribes id) s w =
    ground (arith, length-set s.subscriber id none, length-set s.update_requester id none)
apply-IsWellformed (requests c id) s w = ground (arith, length-set s.update_requester id (some c))
apply-IsWellformed (updates id payload) s w = w
apply-IsWellformed (updates_requested id payload) s w =
    ground (arith, length-set s.update_requester id none)
apply-IsWellformed goes s w =
    let k = unsubscribe_events-IsKept s.num_events 0 s in
    unfold remove_client in
    record {
      subscribers = k.subscribers ∙ w.subscribers ∙ sym k.events;
      requesters = k.requesters ∙ w.requesters ∙ sym k.events;
      infos = ap length k.modes ∙ w.infos ∙ sym k.events;
    }

apply-Reported : (o : Operation) (e : ℕ) (s : Server) → IsWellformed s → Reported e s (apply o s)
apply-Reported (subscribes c id mode) e s w = subscribe-Reported c id e mode s w
apply-Reported (unsubscribes id) e s w = unsubscribe-Reported id e s
apply-Reported (requests c id) e s w = request-Reported c id e s
apply-Reported (updates id payload) e s w = update-Reported id e payload s
apply-Reported (updates_requested id payload) e s w = update_requested-Reported id e payload s
apply-Reported goes e s w = goes-Reported e s w

-- The operations in order: the server at the end, and all calls.
unfoldable pub run : List Operation → Server → Server × List Call
run [] s = (s, [])
run (o ∷ rest) s =
    let (s', calls) = apply o s in let (s'', later) = run rest s' in (s'', calls ++ later)

-- The calls about a subscription alternate: from the given state on, each one says the opposite of
-- the one before; the result is the state at the end.
abbrev pub replay : Bool → List Bool → Option Bool
replay now [] = some now
replay true (false ∷ rest) = replay false rest
replay false (true ∷ rest) = replay true rest
replay _ (_ ∷ rest) = none

replay-change : (a b : Bool) (rest : List Bool) → replay a (change a b ++ rest) ≡ replay b rest
replay-change true true rest = refl
replay-change true false rest = refl
replay-change false true rest = refl
replay-change false false rest = refl

-- While the server stays enabled.
run-replay :
    (operations : List Operation) (e : ℕ) (s : Server)
    → IsWellformed s
    → (replay (is_subscribed e s) (changes e (run operations s).1)
        ≡ some (is_subscribed e (run operations s).0))
      × IsWellformed (run operations s).0
unfolding run
run-replay [] e s w = (refl, w)
run-replay (o ∷ rest) e s w =
    let r : Server × List Call = apply o s in
    let later = run-replay rest e r.0 (apply-IsWellformed o s w) in
    (
      rw (changes-append e r.1 (run rest r.0).1, (apply-Reported o e s w).0)
          (replay-change (is_subscribed e s) (is_subscribed e r.0) (changes e (run rest r.0).1)
            ∙ later.0),
      later.1,
    )

-- The server is disabled and enabled again after each of several periods: the server before it is
-- disabled, and the calls of the period.
unfoldable pub run_periods : List (List Operation) → Server → Option (List (Server × List Call))
run_periods [] s = some []
run_periods (operations ∷ rest) s =
    let (s', calls) = run operations s in
    elim (enable (stop s')) [
      | none ↦ none
      | some s'' ↦ elim (run_periods rest s'') [
        | none ↦ none
        | some later ↦ some ((s', calls) ∷ later)
      ]
    ]

-- In each period the calls alternate up to the state at its end, and no event has a subscriber at
-- the start of the next.
abbrev pub Alternates : ℕ → Bool → List (Server × List Call) → Type 0
Alternates e now [] = Unit
Alternates e now ((s', calls) ∷ rest) =
    (replay now (changes e calls) ≡ some (is_subscribed e s')) × Alternates e false rest

enabled_again :
    (s : Server)
    → IsWellformed s
    → (s' : Server) × (enable (stop s) ≡ some s') × IsWellformed s' × IsQuiet s'
unfolding enable
enabled_again s w =
    let v = stop-IsWellformed s w in
    let quiet = stop-IsQuiet s w in
    (
      record (stop s) { accepting = true; enabled = true },
      ground (arith, stop-disabled s),
      record { subscribers = v.subscribers; requesters = v.requesters; infos = v.infos },
      quiet,
    )

-- However clients subscribe, request and leave, and however the application answers, between an
-- enabling of the server and the next disabling the calls of the subscription callback for an event
-- alternate between subscribed and unsubscribed, and the last one says whether the event has a
-- subscriber. Disabling takes the subscribers away without a call, so that in the next period the
-- calls start again from unsubscribed; the server can always be enabled again.
pub run_periods-Alternates :
    (periods : List (List Operation)) (e : ℕ) (s : Server)
    → IsWellformed s
    → (log : List (Server × List Call)) × (run_periods periods s ≡ some log)
      × Alternates e (is_subscribed e s) log
unfolding run_periods
run_periods-Alternates [] e s w = ([], refl, tt)
run_periods-Alternates (operations ∷ rest) e s w =
    let (replayed, kept) = run-replay operations e s w in
    let (s'', again, v, quiet) = enabled_again (run operations s).0 kept in
    let (later, ran, alternate) = run_periods-Alternates rest e s'' v in
    (
      ((run operations s).0, (run operations s).1) ∷ later,
      ground (arith, again, ran),
      (replayed, rw (quiet e).0 at alternate),
    )

-- A request for an event that no client waits for is put to the application once, and its client
-- waits from then on. Until the answer a further request puts nothing to the application. An answer
-- by `update_requested_event` is sent to that client alone, and then no client waits.
pub request_answered :
    (c id : ℕ) (payload : List ℕ) (s : Server)
    → IsWellformed s
    → id < s.num_events
    → is_requested id s ≡ false
    → (request_count id (apply (requests c id) s).1 ≡ 1)
      × (is_requested id (apply (requests c id) s).0 ≡ true)
      × ((d : ℕ) → (apply (requests d id) (apply (requests c id) s).0).1 ≡ [])
      × ((update_requested_event id payload (apply (requests c id) s).0).1
          ≡ event_requested_update c id payload ∷ [])
      × (is_requested id (update_requested_event id payload (apply (requests c id) s).0).0 ≡ false)
unfolding apply receive_request_event_update update_requested_event send
request_answered c id payload s w small free =
    let set_c = client_at-set s.update_requester id id (some c) in
    let cleared = client_at-set (set s.update_requester id (some c)) id id none in
    let long = length-set s.update_requester id (some c) in
    (ground arith, ground arith, λ d. ground arith, ground arith, ground arith)
