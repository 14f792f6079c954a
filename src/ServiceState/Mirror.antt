-- ===== src/ServiceState/Mirror.antt =====
-- To which events the client connector is subscribed, and which have a subscriber.
use inc_someip_gateway.Base.{
  ℕ, ◌≡◌, refl, Bool, true, false, not, List, [], ◌∷◌, ◌++◌, Option, none, some, if◌then◌else◌,
  ◌==◌, is_empty, nat_eq, length, arith, Option-cases, Bool-cases, inl, inr,
}
use inc_someip_gateway.Map.{find, Distinct}
use inc_someip_gateway.Map.Laws.{
  find-insert_or_assign, find-erase, insert_or_assign-Distinct, erase-Distinct,
}
use inc_someip_gateway.ServiceState.{
  Endpoint, Subscriptions, ConnectorCall, on_connector, member, without, without_client,
  remove_endpoints, remove_event_subscriptions, remove_event_subscription, subscribe, unsubscribe,
}
use inc_someip_gateway.ServiceState.Subscriptions.{
  subscribers_of, Change, subscribes, unsubscribes, drops_endpoint, drops_client, clears, apply,
  eq_nil, without-nil, without_client-nil, subscribers_of-remove_endpoints,
}

-- The events to which the connector is subscribed after a list of calls.
unfoldable pub replay : List ConnectorCall → (ℕ → Bool) → ℕ → Bool
replay [] view j = view j
replay (ConnectorCall.subscribe_event e ∷ rest) view j =
    replay rest (λ i. if e == i then true else view i) j
replay (ConnectorCall.unsubscribe_event e ∷ rest) view j =
    replay rest (λ i. if e == i then false else view i) j

abbrev pub has_subscriber : Subscriptions → ℕ → Bool
has_subscriber s j = not (is_empty (subscribers_of j s))

-- The connector's subscriptions are the events with a subscriber.
pub record Mirrors (view : ℕ → Bool) (s : Subscriptions) : Type 0 where
  pub distinct : Distinct s
  pub told : (j : ℕ) → view j ≡ has_subscriber s j

is_empty-snoc : (xs : List Endpoint) (e : Endpoint) → is_empty (xs ++ e ∷ []) ≡ false
is_empty-snoc [] e = refl
is_empty-snoc (x ∷ xs) e = refl

length-snoc : (xs : List Endpoint) (e : Endpoint) → (length (xs ++ e ∷ []) == 1) ≡ is_empty xs
length-snoc [] e = refl
length-snoc (x ∷ []) e = refl
length-snoc (x ∷ y ∷ xs) e = ground arith

member-is_empty : (e : Endpoint) (xs : List Endpoint) → member e xs ≡ true → is_empty xs ≡ false
unfolding member
member-is_empty e [] h = cc
member-is_empty e (x ∷ xs) h = refl

subscribe-Mirrors :
    (e : Endpoint) (event_id c : ℕ) (s : Subscriptions) (view : ℕ → Bool)
    → Mirrors view s
    → Mirrors (replay (subscribe e event_id (some c) s).1 view) (subscribe e event_id (some c) s).0
unfolding subscribe replay on_connector
subscribe-Mirrors e event_id c s view v =
    let old = subscribers_of event_id s in
    let after = if not (member e old) then old ++ e ∷ [] else old in
    record {
      distinct = insert_or_assign-Distinct event_id after s v.distinct;
      told = λ j. ground (
        arith,
        find-insert_or_assign j event_id after s,
        v.told j,
        is_empty-snoc old e,
        length-snoc old e,
        member-is_empty e old,
      );
    }

unsubscribe-Mirrors :
    (e : Endpoint) (event_id c : ℕ) (s : Subscriptions) (view : ℕ → Bool)
    → Mirrors view s
    → Mirrors
        (replay (unsubscribe e event_id (some c) s).1 view)
        (unsubscribe e event_id (some c) s).0
unfolding unsubscribe replay on_connector
unsubscribe-Mirrors e event_id c s view v = elim (Option-cases (find event_id s)) [
  | inl missing ↦ rw (missing, unsubscribe) (record { distinct = v.distinct; told = λ j. v.told j })
  | inr (xs, found) ↦ elim (Bool-cases (is_empty (without e xs))) [
    | inl gone ↦
        rw (found, unsubscribe, gone)
          (record {
            distinct = erase-Distinct event_id s v.distinct;
            told = λ j. ground (arith, find-erase j event_id s, v.told j);
          })
    | inr left ↦
        rw (found, unsubscribe, left)
          (record {
            distinct = insert_or_assign-Distinct event_id (without e xs) s v.distinct;
            told = λ j. ground (
              arith,
              find-insert_or_assign j event_id (without e xs) s,
              v.told j,
              without-nil e,
              eq_nil xs,
            );
          })
  ]
]

-- What the loop of the removals tells the connector: the events that lose their last subscriber.
replay-remove_endpoints :
    (f : List Endpoint → List Endpoint) (c : ℕ) (s : Subscriptions) (view : ℕ → Bool) (j : ℕ)
    → Distinct s
    → replay (remove_endpoints f (some c) s).1 view j
      ≡ elim (find j s) [ none ↦ view j | some xs ↦ if is_empty (f xs) then false else view j ]
unfolding remove_endpoints replay on_connector find
replay-remove_endpoints f c [] view j d = refl
replay-remove_endpoints f c ((event_id, xs) ∷ rest) view j d = elim (Bool-cases (is_empty (f xs))) [
  | inl gone ↦ ground (
    arith,
    replay-remove_endpoints f c rest (λ i. if event_id == i then false else view i) j d.1,
    d.0,
  )
  | inr left ↦ ground (arith, replay-remove_endpoints f c rest view j d.1, d.0)
]

find-remove_endpoints-none :
    (f : List Endpoint → List Endpoint) (connector : Option ℕ) (s : Subscriptions) (j : ℕ)
    → find j s ≡ none
    → find j (remove_endpoints f connector s).0 ≡ none
unfolding remove_endpoints find
find-remove_endpoints-none f connector [] j e = refl
find-remove_endpoints-none f connector ((event_id, xs) ∷ rest) j e =
    ground (arith, find-remove_endpoints-none f connector rest j)

remove_endpoints-Distinct :
    (f : List Endpoint → List Endpoint) (connector : Option ℕ) (s : Subscriptions)
    → Distinct s
    → Distinct (remove_endpoints f connector s).0
unfolding remove_endpoints find
remove_endpoints-Distinct f connector [] d = d
remove_endpoints-Distinct f connector ((event_id, xs) ∷ rest) d = ground (
  arith,
  remove_endpoints-Distinct f connector rest d.1,
  find-remove_endpoints-none f connector rest event_id d.0,
)

remove_endpoints-Mirrors :
    (f : List Endpoint → List Endpoint) (c : ℕ) (s : Subscriptions) (view : ℕ → Bool)
    → f [] ≡ []
    → Mirrors view s
    → Mirrors (replay (remove_endpoints f (some c) s).1 view) (remove_endpoints f (some c) s).0
remove_endpoints-Mirrors f c s view nothing v = record {
  distinct = remove_endpoints-Distinct f (some c) s v.distinct;
  told = λ j. elim (Option-cases (find j s)) [
    | inl missing ↦ ground (
      arith,
      replay-remove_endpoints f c s view j v.distinct,
      subscribers_of-remove_endpoints f (some c) s j nothing v.distinct,
      v.told j,
      nothing,
    )
    | inr (xs, found) ↦ ground (
      arith,
      replay-remove_endpoints f c s view j v.distinct,
      subscribers_of-remove_endpoints f (some c) s j nothing v.distinct,
      v.told j,
      nothing,
      eq_nil xs,
      eq_nil (f xs),
    )
  ];
}

-- The table is cleared, and the connector is told nothing.
abbrev pub is_silent : Change → Bool
is_silent clears = true
is_silent _ = false

told-Mirrors :
    (change : Change) (c : ℕ) (s : Subscriptions) (view : ℕ → Bool)
    → Mirrors view s
    → is_silent change ≡ false
    → Mirrors (replay (apply change (some c) s).1 view) (apply change (some c) s).0
unfolding apply remove_event_subscription remove_event_subscriptions
told-Mirrors (subscribes e event_id) c s view v told = subscribe-Mirrors e event_id c s view v
told-Mirrors (unsubscribes e event_id) c s view v told = unsubscribe-Mirrors e event_id c s view v
told-Mirrors (drops_endpoint e) c s view v told =
    remove_endpoints-Mirrors (without e) c s view (without-nil e) v
told-Mirrors (drops_client client_id) c s view v told =
    remove_endpoints-Mirrors (without_client client_id) c s view (without_client-nil client_id) v
told-Mirrors clears c s view v told = absurd (cc)

silent :
    (change : Change) (c : ℕ) (s : Subscriptions) (view : ℕ → Bool)
    → Mirrors view s
    → is_silent change ≡ true
    → (j : ℕ)
    → (has_subscriber (apply change (some c) s).0 j ≡ false)
      × (replay (apply change (some c) s).1 view j ≡ has_subscriber s j)
unfolding apply replay find
silent (subscribes e event_id) c s view v told j = absurd (cc)
silent (unsubscribes e event_id) c s view v told j = absurd (cc)
silent (drops_endpoint e) c s view v told j = absurd (cc)
silent (drops_client client_id) c s view v told j = absurd (cc)
silent clears c s view v told j = (refl, v.told j)

-- Let there be a connector that is subscribed to exactly the events with a subscriber, and let no
-- event be listed twice. After every change of the subscriptions but the clearing of the table, and
-- the calls that the change makes on the connector, this is so again. After the table is cleared no
-- event has a subscriber, and the connector stays subscribed to each event that had one.
pub apply-Mirrors :
    (change : Change) (c : ℕ) (s : Subscriptions) (view : ℕ → Bool)
    → Mirrors view s
    → (is_silent change ≡ false
        → Mirrors (replay (apply change (some c) s).1 view) (apply change (some c) s).0)
      × (is_silent change ≡ true
          → (j : ℕ)
          → (has_subscriber (apply change (some c) s).0 j ≡ false)
            × (replay (apply change (some c) s).1 view j ≡ has_subscriber s j))
apply-Mirrors change c s view v = (told-Mirrors change c s view v, silent change c s view v)
