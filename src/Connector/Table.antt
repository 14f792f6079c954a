-- ===== src/Connector/Table.antt =====
-- The tables of the events of a server connector.
use inc_someip_gateway.Base.{
  ℕ, zero, suc, ◌+◌, ◌≤◌, ◌≡◌, refl, sym, ap, ◌∙◌, Bool, true, false, ◌&&◌, ◌==◌, ltb, leb, List,
  [], ◌∷◌, ◌++◌, Option, none, if◌then◌else◌, set, replicate, is_some, length, arith, length-set,
  length-replicate,
}
use inc_someip_gateway.Connector.{
  Server, Call, subscription_change, update_request, client_at, unsubscribe_event,
  unsubscribe_events, make_server, clear_events, stop,
}

pub client_at-set :
    (xs : List (Option ℕ)) (i j : ℕ) (v : Option ℕ)
    → client_at (set xs i v) j ≡ (if i == j && ltb i (length xs) then v else client_at xs j)
unfolding client_at
client_at-set [] i j v = ground arith
client_at-set (x ∷ xs) zero zero v = ground arith
client_at-set (x ∷ xs) zero (suc j) v = ground arith
client_at-set (x ∷ xs) (suc i) zero v = ground arith
client_at-set (x ∷ xs) (suc i) (suc j) v = ground (arith, client_at-set xs i j v)

pub client_at_beyond : (xs : List (Option ℕ)) (j : ℕ) → length xs ≤ j → client_at xs j ≡ none
unfolding client_at
client_at_beyond [] j h = refl
client_at_beyond (x ∷ xs) zero h = absurd (omega arith)
client_at_beyond (x ∷ xs) (suc j) h = client_at_beyond xs j (omega arith)

pub client_at-replicate : (n j : ℕ) → client_at (replicate n none) j ≡ none
unfolding client_at
client_at-replicate zero j = refl
client_at-replicate (suc n) zero = refl
client_at-replicate (suc n) (suc j) = client_at-replicate n j

-- The tables have an entry for each event.
pub record IsWellformed (s : Server) : Type 0 where
  pub subscribers : length s.subscriber ≡ s.num_events
  pub requesters : length s.update_requester ≡ s.num_events
  pub infos : length s.modes ≡ s.num_events

pub make_server-IsWellformed :
    (num_methods num_events : ℕ) → IsWellformed (make_server num_methods num_events)
unfolding make_server
make_server-IsWellformed num_methods num_events = record {
  subscribers = length-replicate num_events none;
  requesters = length-replicate num_events none;
  infos = length-replicate num_events _;
}

-- Whether the event has a subscriber, and whether a client waits for its update.
abbrev pub is_subscribed : ℕ → Server → Bool
is_subscribed e s = is_some (client_at s.subscriber e)

abbrev pub is_requested : ℕ → Server → Bool
is_requested e s = is_some (client_at s.update_requester e)

-- The changes of the subscription of an event that the callback was told, in order.
abbrev pub changes : ℕ → List Call → List Bool
changes e [] = []
changes e (subscription_change id b ∷ rest) = if id == e then b ∷ changes e rest else changes e rest
changes e (_ ∷ rest) = changes e rest

-- How often the update of an event was requested of the application.
abbrev pub request_count : ℕ → List Call → ℕ
request_count e [] = 0
request_count e (update_request id ∷ rest) =
    if id == e then suc (request_count e rest) else request_count e rest
request_count e (_ ∷ rest) = request_count e rest

pub changes-append :
    (e : ℕ) (xs ys : List Call) → changes e (xs ++ ys) ≡ (changes e xs ++ changes e ys)
changes-append e [] ys = refl
changes-append e (subscription_change id b ∷ rest) ys = ground (arith, changes-append e rest ys)
changes-append e (_ ∷ rest) ys = changes-append e rest ys

request_count-append :
    (e : ℕ) (xs ys : List Call)
    → request_count e (xs ++ ys) ≡ request_count e xs + request_count e ys
request_count-append e [] ys = omega arith
request_count-append e (update_request id ∷ rest) ys =
    ground (arith, request_count-append e rest ys)
request_count-append e (_ ∷ rest) ys = request_count-append e rest ys

-- The change from one state of a subscription to another.
abbrev pub change : Bool → Bool → List Bool
change true true = []
change true false = false ∷ []
change false true = true ∷ []
change false false = []

-- What a part of the server's work leaves alone.
pub record IsKept (s s' : Server) : Type 0 where
  pub methods : s'.num_methods ≡ s.num_methods
  pub events : s'.num_events ≡ s.num_events
  pub modes : s'.modes ≡ s.modes
  pub client : s'.client ≡ s.client
  pub accepting : s'.accepting ≡ s.accepting
  pub enabled : s'.enabled ≡ s.enabled
  pub subscribers : length s'.subscriber ≡ length s.subscriber
  pub requesters : length s'.update_requester ≡ length s.update_requester

abbrev pub within : ℕ → ℕ → ℕ → Bool
within id n e = leb id e && ltb e (id + n)

pub unsubscribe_events-IsKept : (n id : ℕ) (s : Server) → IsKept s (unsubscribe_events n id s).0
unfolding unsubscribe_events unsubscribe_event
unsubscribe_events-IsKept zero id s = record {
  methods = refl;
  events = refl;
  modes = refl;
  client = refl;
  accepting = refl;
  enabled = refl;
  subscribers = refl;
  requesters = refl;
}
unsubscribe_events-IsKept (suc n) id s =
    let rest = unsubscribe_events-IsKept n (suc id) (unsubscribe_event id s).0 in
    record {
      methods = rest.methods;
      events = rest.events;
      modes = rest.modes;
      client = rest.client;
      accepting = rest.accepting;
      enabled = rest.enabled;
      subscribers = rest.subscribers ∙ length-set s.subscriber id none;
      requesters = rest.requesters ∙ length-set s.update_requester id none;
    }

-- The loop empties the entries of its events, and tells of those that had a subscriber.
pub unsubscribe_events-effect :
    (n id e : ℕ) (s : Server)
    → let r = unsubscribe_events n id s in
      (client_at r.0.subscriber e ≡ (if within id n e then none else client_at s.subscriber e))
      × (client_at r.0.update_requester e
          ≡ (if within id n e then none else client_at s.update_requester e))
      × (changes e r.1 ≡ (if within id n e then change (is_subscribed e s) false else []))
      × (request_count e r.1 ≡ 0)
unfolding unsubscribe_events unsubscribe_event
unsubscribe_events-effect zero id e s = ground arith
unsubscribe_events-effect (suc n) id e s =
    let s1 : Server = (unsubscribe_event id s).0 in
    let head : List Call = (unsubscribe_event id s).1 in
    let tail : List Call = (unsubscribe_events n (suc id) s1).1 in
    let (subs, reqs, told, none_asked) = unsubscribe_events-effect n (suc id) e s1 in
    let subs1 = client_at-set s.subscriber id e none in
    let reqs1 = client_at-set s.update_requester id e none in
    let beyond = client_at_beyond s.subscriber e in
    let beyond' = client_at_beyond s.update_requester e in
    (
      ground arith,
      ground arith,
      changes-append e head tail ∙ ground arith,
      request_count-append e head tail ∙ ground arith,
    )

-- The loop without a client empties the entries as well.
pub clear_events-IsKept : (n id : ℕ) (s : Server) → IsKept s (clear_events n id s)
unfolding clear_events
clear_events-IsKept zero id s = record {
  methods = refl;
  events = refl;
  modes = refl;
  client = refl;
  accepting = refl;
  enabled = refl;
  subscribers = refl;
  requesters = refl;
}
clear_events-IsKept (suc n) id s =
    let rest = clear_events-IsKept n (suc id) (record s {
      subscriber = set s.subscriber id none;
      update_requester = set s.update_requester id none;
    }) in
    record {
      methods = rest.methods;
      events = rest.events;
      modes = rest.modes;
      client = rest.client;
      accepting = rest.accepting;
      enabled = rest.enabled;
      subscribers = rest.subscribers ∙ length-set s.subscriber id none;
      requesters = rest.requesters ∙ length-set s.update_requester id none;
    }

pub clear_events-effect :
    (n id e : ℕ) (s : Server)
    → (client_at (clear_events n id s).subscriber e
        ≡ (if within id n e then none else client_at s.subscriber e))
      × (client_at (clear_events n id s).update_requester e
          ≡ (if within id n e then none else client_at s.update_requester e))
unfolding clear_events
clear_events-effect zero id e s = ground arith
clear_events-effect (suc n) id e s =
    let s1 : Server = record s {
      subscriber = set s.subscriber id none;
      update_requester = set s.update_requester id none;
    } in
    let (subs, reqs) = clear_events-effect n (suc id) e s1 in
    let subs1 = client_at-set s.subscriber id e none in
    let reqs1 = client_at-set s.update_requester id e none in
    let beyond = client_at_beyond s.subscriber e in
    let beyond' = client_at_beyond s.update_requester e in (ground arith, ground arith)

-- No event has a subscriber, and no client waits for an update.
abbrev pub IsQuiet : Server → Type 0
IsQuiet s = (e : ℕ) → (is_subscribed e s ≡ false) × (is_requested e s ≡ false)

-- Disabling empties the tables.
pub stop-IsQuiet : (s : Server) → IsWellformed s → IsQuiet (stop s)
unfolding stop
stop-IsQuiet s w e =
    let s1 : Server = record s { accepting = false; enabled = false } in
    let (subs, reqs) = clear_events-effect s.num_events 0 e s1 in
    ground (arith, client_at_beyond s.subscriber e, client_at_beyond s.update_requester e)

pub stop-IsWellformed : (s : Server) → IsWellformed s → IsWellformed (stop s)
unfolding stop
stop-IsWellformed s w =
    let s1 : Server = record s { accepting = false; enabled = false } in
    let k = clear_events-IsKept s.num_events 0 s1 in
    record {
      subscribers = k.subscribers ∙ w.subscribers ∙ sym k.events;
      requesters = k.requesters ∙ w.requesters ∙ sym k.events;
      infos = ap length k.modes ∙ w.infos ∙ sym k.events;
    }

pub stop-disabled : (s : Server) → (stop s).enabled ≡ false
unfolding stop
stop-disabled s =
    (clear_events-IsKept s.num_events 0 (record s { accepting = false; enabled = false })).enabled
