-- ===== src/Runtime/Bridges/Rounds.antt =====
-- The rounds of `register_bridge` end, whatever the other threads ask for.
use inc_someip_gateway.Base.{
  ℕ, zero, suc, ◌≤◌, ◌<◌, ◌≡◌, refl, ap, true, false, not, ◌&&◌, ◌||◌, List, [], ◌∷◌, ◌++◌, none,
  some, if◌then◌else◌, length, is_empty, Bool-cases, arith, subst, inl, inr,
}
use mathlib.Core.List.{append-nil}
use inc_someip_gateway.Map.{find, keys, Distinct}
use inc_someip_gateway.Runtime.{Target, target_eq, target_beq, target_beq_iff}
use inc_someip_gateway.Runtime.Bridges.{
  Requests, Request, contains, merge_results, new_requests, rounds, register_bridge,
}

-- No target stands twice in the list.
abbrev pub Nodup : List Target → Type 0
Nodup [] = Unit
Nodup (x ∷ xs) = (contains xs x ≡ false) × Nodup xs

contains-append :
    (xs ys : List Target) (t : Target) → contains (xs ++ ys) t ≡ (contains xs t || contains ys t)
unfolding contains
contains-append [] ys t = refl
contains-append (x ∷ xs) ys t = ground (arith, contains-append xs ys t)

Nodup-append :
    (xs ys : List Target)
    → Nodup xs
    → Nodup ys
    → ((t : Target) → contains xs t ≡ true → contains ys t ≡ false)
    → Nodup (xs ++ ys)
unfolding contains
Nodup-append [] ys h k apart = k
Nodup-append (x ∷ xs) ys h k apart = (
  ground (arith, contains-append xs ys x, apart x, target_beq_iff x x),
  Nodup-append xs ys h.1 k (λ t there. ground (arith, apart t)),
)

-- The requests that are new: those there that were not called.
contains-new_requests :
    (todo done : List Target) (requests : Requests) (t : Target)
    → contains (new_requests todo done requests) t
      ≡ (contains (keys requests) t && (not (contains todo t) && not (contains done t)))
unfolding contains new_requests
contains-new_requests todo done [] t = refl
contains-new_requests todo done ((k, r) ∷ rest) t = elim (Bool-cases (target_beq k t)) [
  | inl same ↦
      let e : k ≡ t = (target_beq_iff k t).0 same in
      rw e (ground (arith, target_beq_iff t t, contains-new_requests todo done rest t))
  | inr other ↦ ground (arith, contains-new_requests todo done rest t)
]

absent_key :
    (t : Target) (requests : Requests) → find t requests ≡ none → contains (keys requests) t ≡ false
unfolding contains find
absent_key t [] h = refl
absent_key t ((k, r) ∷ rest) h = ground (arith, absent_key t rest)

Nodup-keys : (requests : Requests) → Distinct requests → Nodup (keys requests)
Nodup-keys [] d = tt
Nodup-keys ((k, r) ∷ rest) d = (absent_key k rest d.0, Nodup-keys rest d.1)

Nodup-new_requests :
    (todo done : List Target) (requests : Requests)
    → Distinct requests
    → Nodup (new_requests todo done requests)
unfolding new_requests
Nodup-new_requests todo done [] d = tt
Nodup-new_requests todo done ((k, r) ∷ rest) d = ground (
  arith,
  Nodup-new_requests todo done rest d.1,
  contains-new_requests todo done rest k,
  absent_key k rest d.0,
)

-- How many targets of a list were not called.
remaining : List Target → List Target → ℕ
remaining [] done = 0
remaining (u ∷ us) done = let rest = remaining us done in if contains done u then rest else suc rest

remaining-le : (us fresh done : List Target) → remaining us (fresh ++ done) ≤ remaining us done
unfolding remaining
remaining-le [] fresh done = omega arith
remaining-le (u ∷ us) fresh done =
    ground (arith, contains-append fresh done u, remaining-le us fresh done)

-- A call of one more of them leaves fewer.
remaining-lt :
    (us fresh done : List Target) (t : Target)
    → contains us t ≡ true
    → contains fresh t ≡ true
    → contains done t ≡ false
    → remaining us (fresh ++ done) < remaining us done
unfolding contains remaining
remaining-lt [] fresh done t h f d = cc
remaining-lt (u ∷ us) fresh done t h f d = elim (Bool-cases (target_beq u t)) [
  | inl same ↦
      let e : u ≡ t = (target_beq_iff u t).0 same in
      rw e (ground (arith, contains-append fresh done t, remaining-le us fresh done))
  | inr other ↦ ground (
    arith,
    contains-append fresh done u,
    remaining-le us fresh done,
    remaining-lt us fresh done t,
  )
]

remaining-le-length : (us done : List Target) → remaining us done ≤ length us
unfolding remaining
remaining-le-length [] done = omega arith
remaining-le-length (u ∷ us) done = ground (arith, remaining-le-length us done)

module _ (request_service : ℕ → Target → ℕ) (b : ℕ) where
  keys-merge_results :
      (todo : List Target) (requests : Requests)
      → keys (merge_results request_service b todo requests) ≡ keys requests
  unfolding merge_results
  keys-merge_results todo [] = refl
  keys-merge_results todo ((k, r) ∷ rest) = ap (◌∷◌ k) (keys-merge_results todo rest)

  find-merge_results-none :
      (todo : List Target) (t : Target) (requests : Requests)
      → find t requests ≡ none
      → find t (merge_results request_service b todo requests) ≡ none
  unfolding merge_results find
  find-merge_results-none todo t [] h = refl
  find-merge_results-none todo t ((k, r) ∷ rest) h =
      ground (arith, find-merge_results-none todo t rest)

  merge_results-Distinct :
      (todo : List Target) (requests : Requests)
      → Distinct requests
      → Distinct (merge_results request_service b todo requests)
  unfolding merge_results
  merge_results-Distinct todo [] d = tt
  merge_results-Distinct todo ((k, r) ∷ rest) d =
      (find-merge_results-none todo k rest d.0, merge_results-Distinct todo rest d.1)

-- A list from which nothing can be taken.
contains-is_empty : (xs : List Target) (t : Target) → is_empty xs ≡ true → contains xs t ≡ false
unfolding contains
contains-is_empty [] t h = refl
contains-is_empty (x ∷ xs) t h = cc

head_of : (xs : List Target) → is_empty xs ≡ false → (t : Target) × (contains xs t ≡ true)
unfolding contains
head_of [] h = absurd (cc)
head_of (x ∷ xs) h = (x, ground (arith, target_beq_iff x x))

-- Every target that is requested is one of the list.
abbrev pub IsWithin : List Target → Requests → Type 0
IsWithin targets requests =
    (t : Target) → contains (keys requests) t ≡ true → contains targets t ≡ true

-- What the rounds end with: each target that is there was called, and none was called twice.
abbrev pub IsComplete : List Target → Requests × List Target → Type 0
IsComplete before result =
    ((t : Target) → contains (keys result.0) t ≡ true → contains result.1 t ≡ true)
    × ((t : Target) → contains before t ≡ true → contains result.1 t ≡ true)
    × Nodup result.1

module _ (request_service : ℕ → Target → ℕ) (others : ℕ → Requests → Requests)
    (targets : List Target)
    (within : (round : ℕ) (r : Requests) → IsWithin targets r → IsWithin targets (others round r))
    (distinct : (round : ℕ) (r : Requests) → Distinct r → Distinct (others round r)) where
  rounds-terminate :
      (fuel round b : ℕ) (todo done : List Target) (requests : Requests)
      → remaining targets (todo ++ done) < fuel
      → Nodup (todo ++ done)
      → IsWithin targets requests
      → Distinct requests
      → (result : Requests × List Target) × (rounds request_service others fuel round b todo done
            requests
          ≡ some result)
        × IsComplete (todo ++ done) result
  unfolding rounds
  rounds-terminate zero round b todo done requests room once inside d = elim room [ ]
  rounds-terminate (suc fuel) round b todo done requests room once inside d =
      let r : Requests = others round requests in
      let called : List Target = todo ++ done in
      let fresh : List Target = new_requests todo called r in
      let new = contains-new_requests todo called r in
      let append = contains-append todo done in
      elim (Bool-cases (is_empty fresh)) [
        | inl over ↦ (
          (merge_results request_service b todo r, called),
          rw over refl,
          (
            λ t there. ground (
              arith,
              ap (λ ks. contains ks t) (keys-merge_results request_service b todo r),
              new t,
              append t,
              contains-is_empty fresh t over,
            ),
            λ t there. there,
            once,
          ),
        )
        | inr more ↦
            let (t, there) = head_of fresh more in
            let (result, run, complete) =
              rounds-terminate fuel (suc round) b fresh called
                (merge_results request_service b todo r)
                (ground (
                  arith,
                  new t,
                  within round requests inside t,
                  remaining-lt targets fresh called t,
                ))
                (Nodup-append fresh called
                  (Nodup-new_requests todo called r (distinct round requests d)) once
                  (λ t h. ground (arith, new t)))
                (λ u h. within round requests inside u (
                  subst (λ ks. contains ks u ≡ true) (keys-merge_results request_service b todo r)
                    h))
                (merge_results-Distinct request_service b todo r (distinct round requests d)) in
            (
              result,
              rw more run,
              (
                complete.0,
                λ t h. complete.1 t (ground (arith, contains-append fresh called t)),
                complete.2,
              ),
            )
      ]

  -- The loop ends: where all that is requested, and all that the other threads request between the
  -- rounds, is of a finite list of targets, and the map keeps its keys distinct, as many rounds as
  -- the list is long, and one more, are enough. A bridge is then asked exactly once for each target
  -- that it was asked for, and it was asked for every target that was requested at the start and
  -- for every target that is requested at the end.
  pub register_bridge-terminates :
      (b : ℕ) (requests : Requests)
      → IsWithin targets requests
      → Distinct requests
      → (result : Requests × List Target) × (register_bridge request_service others
            (suc (length targets))
            b
            requests
          ≡ some result)
        × IsComplete (keys requests) result
  unfolding register_bridge
  register_bridge-terminates b requests inside d =
      let (result, run, complete) =
        rounds-terminate (suc (length targets)) 0 b (keys requests) [] requests
          (omega (arith, remaining-le-length targets (keys requests ++ [])))
          (rw append-nil (Nodup-keys requests d)) inside d in
      (
        result,
        run,
        (
          complete.0,
          λ t h. complete.1 t (ground (arith, contains-append (keys requests) [] t)),
          complete.2,
        ),
      )

pub new_requests-keys :
    (requests : Requests)
    → is_empty (new_requests (keys requests) (keys requests ++ []) requests) ≡ true
new_requests-keys requests =
    let fresh : List Target = new_requests (keys requests) (keys requests ++ []) requests in
    elim (Bool-cases (is_empty fresh)) [
      | inl none_new ↦ none_new
      | inr some_new ↦
          let (t, there) = head_of fresh some_new in
          absurd
            (ground (arith, contains-new_requests (keys requests) (keys requests ++ []) requests t))
    ]

pub contains_found :
    (t : Target) (requests : Requests) (r : Request)
    → find t requests ≡ some r
    → contains (keys requests) t ≡ true
unfolding contains find
contains_found t [] r h = cc
contains_found t ((k, q) ∷ rest) r h = ground (arith, contains_found t rest r)
