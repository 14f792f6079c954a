-- ===== src/ServiceState/Subscriptions.antt =====
-- Who is subscribed to what, and what the client connector was told of it.
use inc_someip_gateway.Base.{
  ℕ, ◌≡◌, refl, ap, ◌∙◌, sym, Bool, true, false, not, ◌&&◌, ◌||◌, List, [], ◌∷◌, ◌++◌, Option,
  if◌then◌else◌, ◌==◌, is_empty, keep_if, value_or, nat_eq, arith, Option-cases, Bool-cases, inl,
  inr,
}
use inc_someip_gateway.Map.{find, Distinct}
use inc_someip_gateway.Map.Laws.{find-insert_or_assign, find-erase}
use inc_someip_gateway.ServiceState.{
  Endpoint, endpoint_beq, Subscriptions, ConnectorCall, member, without, without_client,
  remove_endpoints, remove_event_subscriptions, remove_event_subscription, subscribe, unsubscribe,
}

abbrev pub subscribers_of : ℕ → Subscriptions → List Endpoint
subscribers_of event_id s = value_or (find event_id s) []

unfoldable pub is_subscribed : Endpoint → ℕ → Subscriptions → Bool
is_subscribed e event_id s = member e (subscribers_of event_id s)

-- The calls that change the subscriptions of a service; `clears` is `clear()` of the table, as
-- `clear_event_subscriptions` and `remove_offers` call it.
pub data Change : Type 0 where
  subscribes unsubscribes : Endpoint → ℕ → Change
  drops_endpoint : Endpoint → Change
  drops_client : ℕ → Change
  clears : Change

unfoldable pub apply : Change → Option ℕ → Subscriptions → Subscriptions × List ConnectorCall
apply (subscribes e event_id) connector s = subscribe e event_id connector s
apply (unsubscribes e event_id) connector s = unsubscribe e event_id connector s
apply (drops_endpoint e) connector s = remove_event_subscription e connector s
apply (drops_client client_id) connector s = remove_event_subscriptions client_id connector s
apply clears connector s = ([], [])

-- The change of the set of pairs of an endpoint and an event.
unfoldable pub intended : Change → (Endpoint → ℕ → Bool) → Endpoint → ℕ → Bool
intended (subscribes e event_id) before x j = (endpoint_beq e x && (event_id == j)) || before x j
intended (unsubscribes e event_id) before x j =
    not (endpoint_beq e x && (event_id == j)) && before x j
intended (drops_endpoint e) before x j = not (endpoint_beq e x) && before x j
intended (drops_client client_id) before x j = not (x.client_id == client_id) && before x j
intended clears before x j = false

member-append :
    (e x : Endpoint) (xs : List Endpoint)
    → member x (xs ++ e ∷ []) ≡ (endpoint_beq e x || member x xs)
unfolding member
member-append e x [] = ground arith
member-append e x (y ∷ xs) = ground (arith, member-append e x xs)

member-keep_if :
    (p : Endpoint → Bool) (x : Endpoint) (xs : List Endpoint)
    → ((y : Endpoint) → endpoint_beq y x ≡ true → p y ≡ p x)
    → member x (keep_if p xs) ≡ (p x && member x xs)
unfolding member keep_if
member-keep_if p x [] same = ground arith
member-keep_if p x (y ∷ xs) same = ground (arith, same y, member-keep_if p x xs same)

endpoint_beq_left :
    (y x e : Endpoint) → endpoint_beq y x ≡ true → endpoint_beq y e ≡ endpoint_beq x e
unfolding endpoint_beq
endpoint_beq_left y x e same = ground arith

endpoint_beq_comm : (x e : Endpoint) → endpoint_beq x e ≡ endpoint_beq e x
unfolding endpoint_beq
endpoint_beq_comm x e = ground arith

member_same :
    (e x : Endpoint) (xs : List Endpoint) → endpoint_beq e x ≡ true → member x xs ≡ member e xs
unfolding member endpoint_beq
member_same e x [] same = refl
member_same e x (y ∷ xs) same = ground (arith, member_same e x xs same)

member-without :
    (e x : Endpoint) (xs : List Endpoint)
    → member x (without e xs) ≡ (not (endpoint_beq e x) && member x xs)
unfolding without
member-without e x xs = ground (
  arith,
  member-keep_if (λ y. not (endpoint_beq y e)) x xs
      (λ y same. ap not (endpoint_beq_left y x e same)),
  endpoint_beq_comm x e,
)

pub member-without_client :
    (client_id : ℕ) (x : Endpoint) (xs : List Endpoint)
    → member x (without_client client_id xs) ≡ (not (x.client_id == client_id) && member x xs)
unfolding without_client endpoint_beq
member-without_client client_id x xs =
    member-keep_if (λ y. not (y.client_id == client_id)) x xs (λ y same. ground arith)

pub eq_nil : (xs : List Endpoint) → is_empty xs ≡ true → xs ≡ []
eq_nil [] e = refl
eq_nil (x ∷ xs) e = cc

-- What is left of the endpoints of an event.
pub subscribers_of-remove_endpoints :
    (f : List Endpoint → List Endpoint) (connector : Option ℕ) (s : Subscriptions) (j : ℕ)
    → f [] ≡ []
    → Distinct s
    → subscribers_of j (remove_endpoints f connector s).0 ≡ f (subscribers_of j s)
unfolding remove_endpoints find
subscribers_of-remove_endpoints f connector [] j nothing d = sym nothing
subscribers_of-remove_endpoints f connector ((event_id, xs) ∷ rest) j nothing d =
    let later = subscribers_of-remove_endpoints f connector rest j nothing d.1 in
    elim (Bool-cases (is_empty (f xs))) [
      | inl gone ↦ ground (arith, later, d.0, nothing, eq_nil (f xs) gone)
      | inr left ↦ ground (arith, later, d.0, nothing)
    ]

pub without-nil : (e : Endpoint) → without e [] ≡ []
unfolding without keep_if
without-nil e = refl

pub without_client-nil : (client_id : ℕ) → without_client client_id [] ≡ []
unfolding without_client keep_if
without_client-nil client_id = refl

subscribe-is_subscribed :
    (e x : Endpoint) (event_id j : ℕ) (connector : Option ℕ) (s : Subscriptions)
    → is_subscribed x j (subscribe e event_id connector s).0
      ≡ ((endpoint_beq e x && (event_id == j)) || is_subscribed x j s)
unfolding is_subscribed subscribe
subscribe-is_subscribed e x event_id j connector s =
    let old = subscribers_of event_id s in
    let after = if not (member e old) then old ++ e ∷ [] else old in
    ground
      (arith, find-insert_or_assign j event_id after s, member-append e x old, member_same e x old)

unsubscribe-is_subscribed :
    (e x : Endpoint) (event_id j : ℕ) (connector : Option ℕ) (s : Subscriptions)
    → is_subscribed x j (unsubscribe e event_id connector s).0
      ≡ (not (endpoint_beq e x && (event_id == j)) && is_subscribed x j s)
unfolding is_subscribed unsubscribe member
unsubscribe-is_subscribed e x event_id j connector s = elim (Option-cases (find event_id s)) [
  | inl missing ↦ ground arith
  | inr (xs, found) ↦ elim (Bool-cases (is_empty (without e xs))) [
    | inl gone ↦
        ground (arith, find-erase j event_id s, member-without e x xs, eq_nil (without e xs) gone)
    | inr left ↦
        ground (arith, find-insert_or_assign j event_id (without e xs) s, member-without e x xs)
  ]
]

-- Every change does to the set of subscriptions, the pairs of an endpoint and an event, what it is
-- meant to do, whether there is a connector or not, where no event is listed twice.
pub apply-is_subscribed :
    (c : Change) (connector : Option ℕ) (s : Subscriptions) (x : Endpoint) (j : ℕ)
    → Distinct s
    → is_subscribed x j (apply c connector s).0 ≡ intended c (λ y i. is_subscribed y i s) x j
unfolding apply intended remove_event_subscription remove_event_subscriptions is_subscribed
apply-is_subscribed (subscribes e event_id) connector s x j d =
    unfold is_subscribed in subscribe-is_subscribed e x event_id j connector s
apply-is_subscribed (unsubscribes e event_id) connector s x j d =
    unfold is_subscribed in unsubscribe-is_subscribed e x event_id j connector s
apply-is_subscribed (drops_endpoint e) connector s x j d =
    ap (member x) (subscribers_of-remove_endpoints (without e) connector s j (without-nil e) d)
    ∙ member-without e x (subscribers_of j s)
apply-is_subscribed (drops_client client_id) connector s x j d =
    ap (member x) (
      subscribers_of-remove_endpoints (without_client client_id) connector s j
        (without_client-nil client_id) d)
    ∙ member-without_client client_id x (subscribers_of j s)
apply-is_subscribed clears connector s x j d = unfold find member in refl
