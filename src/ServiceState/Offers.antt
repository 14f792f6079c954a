-- ===== src/ServiceState/Offers.antt =====
-- Which offers `send_connect_service` answers, and with which handles.
use inc_someip_gateway.Base.{
  ℕ, ◌≡◌, ◌≢◌, refl, Bool, true, false, List, [], ◌∷◌, Option, none, is_some, some, if◌then◌else◌,
  ◌==◌, nat_eq, arith,
}
use inc_someip_gateway.Map.{Map, find, Distinct}
use inc_someip_gateway.ServiceState.{
  OfferState, ServiceState, is_due, next_for, send_to_offers, send_connect_service, Sent,
}
use mathlib.Core.Option

-- The handle with which a client was tried.
unfoldable pub attempt_for : ℕ → List (ℕ × ℕ) → Option ℕ
attempt_for c [] = none
attempt_for c ((b, handle) ∷ rest) = if b == c then some handle else attempt_for c rest

-- The offer of a client after the loop, by the handle with which it was tried.
unfoldable pub after_attempt : Bool → OfferState → Option ℕ → OfferState
after_attempt sent offer none = offer
after_attempt sent offer (some handle) = record offer { connect_sent = sent; required_id = handle }

-- Whether an attempt is made for the offer of a client.
abbrev pub due : Option OfferState → Bool
due none = false
due (some offer) = is_due offer

attempt_none :
    (sends : ℕ → Bool) (next c : ℕ) (m : Map ℕ OfferState)
    → find c m ≡ none
    → attempt_for c (send_to_offers sends next m).attempts ≡ none
unfolding send_to_offers attempt_for find
attempt_none sends next c [] e = refl
attempt_none sends next c ((b, offer) ∷ rest) e =
    ground (arith, attempt_none sends (if is_due offer then next_for next offer else next) c rest)

-- What one call of `send_connect_service` does to the offer of a client and tries for it. An offer
-- that stands and was not answered is tried, with its own handle if it has one; it counts as
-- answered exactly when the send succeeds, and keeps the handle in either case. No other offer is
-- touched or tried.
pub record Answered (sends : ℕ → Bool) (c : ℕ) (before : Option OfferState) (sent : Sent)
    : Type 0 where
  pub tried : is_some (attempt_for c sent.attempts) ≡ due before
  pub stored :
      find c sent.offers
      ≡ Option.map (λ o. after_attempt (sends c) o (attempt_for c sent.attempts)) before
  pub reused :
      (o : OfferState) (handle : ℕ)
      → before ≡ some o
      → o.required_id ≢ 0
      → attempt_for c sent.attempts ≡ some handle
      → handle ≡ o.required_id

send_to_offers-Answered :
    (sends : ℕ → Bool) (next c : ℕ) (m : Map ℕ OfferState)
    → Distinct m
    → Answered sends c (find c m) (send_to_offers sends next m)
unfolding send_to_offers attempt_for after_attempt find
send_to_offers-Answered sends next c [] d = record {
  tried = refl;
  stored = refl;
  reused = λ o handle e. absurd (cc);
}
send_to_offers-Answered sends next c ((b, offer) ∷ rest) d =
    let next' = if is_due offer then next_for next offer else next in
    let ih = send_to_offers-Answered sends next' c rest d.1 in
    record {
      tried = ground (arith, ih.tried, d.0, attempt_none sends next' c rest);
      stored = ground (arith, ih.stored, d.0, attempt_none sends next' c rest);
      reused = λ o handle e nonzero t.
          ground (arith, ih.reused o handle, d.0, attempt_none sends next' c rest);
    }

find-none :
    (sends : ℕ → Bool) (next c : ℕ) (m : Map ℕ OfferState)
    → find c m ≡ none
    → find c (send_to_offers sends next m).offers ≡ none
unfolding send_to_offers find
find-none sends next c [] e = refl
find-none sends next c ((b, offer) ∷ rest) e =
    ground (arith, find-none sends (if is_due offer then next_for next offer else next) c rest)

send_to_offers-Distinct :
    (sends : ℕ → Bool) (next : ℕ) (m : Map ℕ OfferState)
    → Distinct m
    → Distinct (send_to_offers sends next m).offers
unfolding send_to_offers find
send_to_offers-Distinct sends next [] d = d
send_to_offers-Distinct sends next ((b, offer) ∷ rest) d =
    let next' = if is_due offer then next_for next offer else next in
    ground (arith, send_to_offers-Distinct sends next' rest d.1, find-none sends next' b rest d.0)

-- The result of `send_connect_service` as a record of the loop.
abbrev pub sent_of : (ℕ → Bool) → ℕ → ServiceState → Sent
sent_of sends next s = record {
  offers = (send_connect_service sends next s).0.offers;
  next_local_id = (send_connect_service sends next s).1;
  attempts = (send_connect_service sends next s).2;
}

-- For a service that is requested, every offer that stands and was not answered is tried, with
-- its own handle if it has one; it counts as answered exactly when the send succeeds, and keeps its
-- handle in either case. No other offer is touched or tried. For a service that is not requested
-- nothing is tried or changed.
send_connect_service-Answered :
    (sends : ℕ → Bool) (next c : ℕ) (s : ServiceState)
    → Distinct s.offers
    → (s.requested ≡ true → Answered sends c (find c s.offers) (sent_of sends next s))
      × (s.requested ≡ false → send_connect_service sends next s ≡ (s, next, []))
unfolding send_connect_service
send_connect_service-Answered sends next c s d = (
  λ e. rw (e, send_connect_service) (send_to_offers-Answered sends next c s.offers d),
  λ e. rw (e, send_connect_service) refl,
)

send_again :
    (sends again : ℕ → Bool) (next later c : ℕ) (m : Map ℕ OfferState)
    → Distinct m
    → sends c ≡ true
    → attempt_for c (send_to_offers again later (send_to_offers sends next m).offers).attempts
      ≡ none
unfolding after_attempt is_due
send_again sends again next later c m d success =
    let first = send_to_offers-Answered sends next c m d in
    let second =
      send_to_offers-Answered again later c (send_to_offers sends next m).offers
        (send_to_offers-Distinct sends next m d) in
    ground (arith, first.tried, first.stored, second.tried)

-- An offer to which the connect message was sent is not tried again by the next call.
send_connect_service_again :
    (sends again : ℕ → Bool) (next later c : ℕ) (s : ServiceState)
    → Distinct s.offers
    → sends c ≡ true
    → s.requested ≡ true
    → attempt_for c (send_connect_service again later (send_connect_service sends next s).0).2
      ≡ none
unfolding send_connect_service
send_connect_service_again sends again next later c s d success e =
    rw (e, send_connect_service) (send_again sends again next later c s.offers d success)
