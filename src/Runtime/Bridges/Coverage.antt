-- ===== src/Runtime/Bridges/Coverage.antt =====
-- Which bridge holds a request for which service, with no other thread between the steps.
use inc_someip_gateway.Base.{
  ℕ, suc, ◌≡◌, refl, Bool, true, ◌&&◌, ◌||◌, ◌==◌, List, [], ◌∷◌, Option, none, if◌then◌else◌, ltb,
  length, is_some, Bool-cases, arith, inl, inr, nat_eq,
}
use mathlib.Core.Option
use inc_someip_gateway.Map.{Map, find}
use inc_someip_gateway.Map.Laws.{find-insert_or_assign}
use inc_someip_gateway.Runtime.{Target, target_eq, target_beq, target_beq_iff}
use inc_someip_gateway.Runtime.Bridges.{
  Requests, Request, Bridge, contains, merge_results, emplace, emplace_all, subscribers_of,
  change_request, ask_bridges, is_forward_subscription, is_identity,
}

abbrev pub no_others : ℕ → Requests → Requests
no_others round r = r

abbrev pub has : Map ℕ ℕ → ℕ → Bool
has m b = is_some (find b m)

pub has-emplace : (c b v : ℕ) (m : Map ℕ ℕ) → has (emplace b v m) c ≡ (b == c || has m c)
unfolding emplace
has-emplace c b v m = ground (arith, find-insert_or_assign c b v m)

pub has-emplace_all :
    (c : ℕ) (from m : Map ℕ ℕ) → has (emplace_all from m) c ≡ (has from c || has m c)
unfolding emplace_all find
has-emplace_all c [] m = refl
has-emplace_all c ((b, v) ∷ rest) m =
    ground (arith, has-emplace_all c rest (emplace b v m), has-emplace c b v m)

-- A request, after what the rounds of a bridge merge into it.
unfoldable pub merge_one : (ℕ → Target → ℕ) → ℕ → List Target → Target → Request → Request
merge_one request_service b todo t r =
    if contains todo t && ltb 0 r.owners
    then record r { bridges = emplace b (request_service b t) r.bridges }
    else r

pub find-merge_results :
    (request_service : ℕ → Target → ℕ) (b : ℕ) (todo : List Target) (t : Target)
    (requests : Requests)
    → find t (merge_results request_service b todo requests)
      ≡ Option.map (merge_one request_service b todo t) (find t requests)
unfolding merge_results find merge_one
find-merge_results request_service b todo t [] = refl
find-merge_results request_service b todo t ((k, r) ∷ rest) = elim (Bool-cases (target_beq k t)) [
  | inl same ↦ rw same (rw ((target_beq_iff k t).0 same) refl)
  | inr other ↦ rw other (find-merge_results request_service b todo t rest)
]

pub find-change_request :
    (f : Request → Request) (t u : Target) (requests : Requests)
    → find u (change_request f t requests)
      ≡ (if target_beq t u then Option.map f (find u requests) else find u requests)
unfolding change_request find
find-change_request f t u [] = ground arith
find-change_request f t u ((k, r) ∷ rest) = ground (
  arith,
  find-change_request f t u rest,
  target_beq_iff k t,
  target_beq_iff k u,
  target_beq_iff t u,
)

module _ (request_service : ℕ → Target → ℕ) where
  -- The loop asks registered bridges only.
  pub asked-le :
      (identity : Option ℕ) (t : Target) (round : ℕ) (bridges : Map ℕ Bridge) (requests : Requests)
      (results : Map ℕ ℕ) (c : ℕ)
      → has (ask_bridges request_service no_others identity t round bridges requests results).1 c
        ≡ true
      → (is_some (find c bridges) || has results c) ≡ true
  unfolding ask_bridges find
  asked-le identity t round [] requests results c h = h
  asked-le identity t round ((b, bridge) ∷ rest) requests results c h =
      elim (Bool-cases
        (is_forward_subscription identity bridge.identity (subscribers_of (find t requests)))) [
          | inl forward ↦
              let h' =
                asked-le identity t (suc round) rest requests
                  (emplace b (request_service b t) results) c (rw (forward, ask_bridges) at h) in
              ground (arith, h', has-emplace c b (request_service b t) results)
          | inr kept ↦
              let h' =
                asked-le identity t round rest requests results c (rw (kept, ask_bridges) at h) in
              ground arith
        ]

  -- Each bridge is asked for the first subscriber that is no bridge.
  pub asked-all :
      (t : Target) (round : ℕ) (bridges : Map ℕ Bridge) (requests : Requests) (results : Map ℕ ℕ)
      (c : ℕ)
      → length (subscribers_of (find t requests)) ≡ 1
      → has (ask_bridges request_service no_others none t round bridges requests results).1 c
        ≡ (is_some (find c bridges) || has results c)
  unfolding ask_bridges find is_forward_subscription is_identity
  asked-all t round [] requests results c one = refl
  asked-all t round ((b, bridge) ∷ rest) requests results c one =
      rw (one, ask_bridges, is_forward_subscription)
        (ground (
          arith,
          asked-all t (suc round) rest requests (emplace b (request_service b t) results) c one,
          has-emplace c b (request_service b t) results,
        ))

  pub ask_bridges-same :
      (identity : Option ℕ) (t : Target) (round : ℕ) (bridges : Map ℕ Bridge) (requests : Requests)
      (results : Map ℕ ℕ)
      → (ask_bridges request_service no_others identity t round bridges requests results).0
        ≡ requests
  unfolding ask_bridges
  ask_bridges-same identity t round [] requests results = refl
  ask_bridges-same identity t round ((b, bridge) ∷ rest) requests results =
      elim (Bool-cases
        (is_forward_subscription identity bridge.identity (subscribers_of (find t requests)))) [
          | inl forward ↦
              rw (forward, ask_bridges)
                (ask_bridges-same identity t (suc round) rest requests
                  (emplace b (request_service b t) results))
          | inr kept ↦
              rw (kept, ask_bridges) (ask_bridges-same identity t round rest requests results)
        ]
