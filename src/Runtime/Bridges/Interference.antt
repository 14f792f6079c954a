-- ===== src/Runtime/Bridges/Interference.antt =====
-- A client connector that asks the bridges while other threads change the requests.
use inc_someip_gateway.Base.{
  ℕ, suc, ◌<◌, ◌≡◌, refl, ◌∙◌, true, ◌||◌, [], ◌∷◌, Option, none, some, length, is_some, arith,
  nat_eq,
}
use mathlib.Core.Option
use inc_someip_gateway.Map.{Map, find, insert_or_assign}
use inc_someip_gateway.Map.Laws.{find-insert_or_assign, find-map_values}
use inc_someip_gateway.Runtime.{Target, target_eq, target_beq_iff}
use inc_someip_gateway.Runtime.Bridges.{
  Requests, Request, Bridge, emplace, emplace_all, share, subscribers_of, ask_bridges,
  get_bridge_requests, is_forward_subscription, is_identity, forget_bridge, cleanup_bridge,
}
use inc_someip_gateway.Runtime.Bridges.Coverage.{
  has, has-emplace, has-emplace_all, find-change_request,
}
use inc_someip_gateway.Runtime.Bridges.History.{holds, owners_of}

-- A request that has an owner and one subscriber.
abbrev pub IsFirst : Option Request → Type 0
IsFirst o = (length (subscribers_of o) ≡ 1) × (0 < owners_of o)

-- A request stays such when its bridges are taken away.
pub cleanup_bridge-IsFirst :
    (b : ℕ) (t : Target) (r : Requests) → IsFirst (find t r) → IsFirst (find t (cleanup_bridge b r))
unfolding cleanup_bridge subscribers_of
cleanup_bridge-IsFirst b t r first =
    rw (find-map_values (forget_bridge b) t r) (kept (find t r) first)
  where
    kept : (o : Option Request) → IsFirst o → IsFirst (Option.map (forget_bridge b) o)
    kept none first = first
    kept (some q) first = unfold forget_bridge in ground arith

module _ (request_service : ℕ → Target → ℕ) (others : ℕ → Requests → Requests) (t : Target)
    (keeps : (round : ℕ) (r : Requests)
      → IsFirst (find t r)
      → IsFirst (find t (others round r))) where
  asked_while :
      (round : ℕ) (bridges : Map ℕ Bridge) (requests : Requests) (results : Map ℕ ℕ) (c : ℕ)
      → IsFirst (find t requests)
      → (has (ask_bridges request_service others none t round bridges requests results).1 c
          ≡ (is_some (find c bridges) || has results c))
        × IsFirst
            (find t (ask_bridges request_service others none t round bridges requests results).0)
  unfolding ask_bridges find is_forward_subscription is_identity
  asked_while round [] requests results c first = (refl, first)
  asked_while round ((b, bridge) ∷ rest) requests results c first =
      let later =
        asked_while (suc round) rest (others round requests)
          (emplace b (request_service b t) results) c (keeps round requests first) in
      rw (first.0, ask_bridges, is_forward_subscription)
        (ground (arith, later.0, has-emplace c b (request_service b t) results), later.1)

  -- Where no client looks for the service yet, and other threads leave the new request its one
  -- subscriber and its owner while the bridges are asked, each bridge that was registered when the
  -- client connector was made holds the request afterwards. So it does if another thread takes its
  -- entries away in the meantime, because it is unregistered.
  pub registered_holds :
      (bridges : Map ℕ Bridge) (requests : Requests) (c : ℕ)
      → find t requests ≡ none
      → is_some (find c bridges) ≡ true
      → holds c (find t (get_bridge_requests request_service others none t bridges requests)) ≡ true
  unfolding get_bridge_requests
  registered_holds bridges requests c absent there =
      let shared : Requests = insert_or_assign t (share none (find t requests)) requests in
      let asked : Requests × Map ℕ ℕ =
        ask_bridges request_service others none t 0 bridges shared [] in
      let fresh : IsFirst (find t shared) =
        rw
          (
            find-insert_or_assign t t (share none (find t requests)) requests,
            (target_beq_iff t t).1 refl,
          )
          (rw absent (unfold share subscribers_of in (refl, omega arith))) in
      let (all, first) = asked_while 0 bridges shared [] c fresh in
      let final =
        find-change_request (λ r. record r { bridges = emplace_all asked.1 r.bridges }) t t
          asked.0 in
      rw final (
        rw ((target_beq_iff t t).1 refl)
          (granted (find t asked.0) asked.1 first (all ∙ ground arith)))
    where
      granted :
          (o : Option Request) (results : Map ℕ ℕ)
          → IsFirst o
          → has results c ≡ true
          → holds c (
              Option.map {A = Request} {B = Request}
                (λ r. record r { bridges = emplace_all results r.bridges })
                o)
            ≡ true
      granted none results first h = absurd (omega arith)
      granted (some r) results first h = ground (arith, has-emplace_all c results r.bridges)
