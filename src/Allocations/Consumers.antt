-- ===== src/Allocations/Consumers.antt =====
-- A payload is held from the update that inserted it until the last of its consumers has reported.
use inc_someip_gateway.Base.{
  ℕ, zero, suc, ◌+◌, ◌-◌, ◌%◌, ◌^◌, ◌<◌, ◌≤◌, ◌≡◌, inl, inr, refl, ap, ◌∙◌, ◌&&◌, List, [], ◌∷◌,
  none, some, if◌then◌else◌, ◌==◌, leb, length, set, get_elem?, value_or, arith, nat_eq,
  Option-cases, Bool-cases,
}
use inc_someip_gateway.Map.{find, insert_or_assign}
use inc_someip_gateway.Map.Laws.{find-insert_or_assign}
use inc_someip_gateway.Wire.{Handle}
use inc_someip_gateway.Allocations.{
  Payload, Allocation, Allocations, no_allocation, resize, with_room, retain, insert_allocation,
  consume, payload_consumed,
}

-- The allocation of a slot; a slot that no vector reaches has none.
abbrev pub element : List Allocation → ℕ → Allocation
element xs i = value_or (get_elem? xs i) no_allocation

unfoldable pub allocation_of : ℕ → ℕ → Allocations → Allocation
allocation_of key slot m = element (value_or (find key m) []) slot

element-resize :
    (n i : ℕ) (xs : List Allocation) → length xs ≤ n → element (resize n xs) i ≡ element xs i
unfolding resize
element-resize zero i [] le = refl
element-resize zero i (x ∷ xs) le = elim le [ ]
element-resize (suc n) zero [] le = refl
element-resize (suc n) (suc i) [] le = element-resize n i [] (omega arith)
element-resize (suc n) zero (x ∷ xs) le = refl
element-resize (suc n) (suc i) (x ∷ xs) le = element-resize n i xs (omega arith)

length-resize : (n : ℕ) (xs : List Allocation) → length (resize n xs) ≡ n
unfolding resize
length-resize zero xs = refl
length-resize (suc n) [] = ap suc (length-resize n [])
length-resize (suc n) (x ∷ xs) = ap suc (length-resize n xs)

element-set :
    (xs : List Allocation) (i j : ℕ) (a : Allocation)
    → i < length xs
    → element (set xs i a) j ≡ (if i == j then a else element xs j)
element-set [] i j a lt = elim lt [ ]
element-set (x ∷ xs) zero zero a lt = refl
element-set (x ∷ xs) zero (suc j) a lt = ground arith
element-set (x ∷ xs) (suc i) zero a lt = ground arith
element-set (x ∷ xs) (suc i) (suc j) a lt = ground (arith, element-set xs i j a (omega arith))

lt_of_get_elem? :
    (xs : List Allocation) (i : ℕ) (a : Allocation) → get_elem? xs i ≡ some a → i < length xs
lt_of_get_elem? [] i a e = absurd (cc)
lt_of_get_elem? (x ∷ xs) zero a e = omega arith
lt_of_get_elem? (x ∷ xs) (suc i) a e = omega (arith, lt_of_get_elem? xs i a e)

get_elem?_of_lt :
    (xs : List Allocation) (i : ℕ) → i < length xs → get_elem? xs i ≡ some (element xs i)
get_elem?_of_lt [] i lt = elim lt [ ]
get_elem?_of_lt (x ∷ xs) zero lt = refl
get_elem?_of_lt (x ∷ xs) (suc i) lt = get_elem?_of_lt xs i (omega arith)

length-with_room :
    (slot : ℕ) (xs : List Allocation) → slot + 1 < 2 ^ 64 → slot < length (with_room slot xs)
unfolding with_room
length-with_room slot xs small = ground (arith, length-resize (slot + 1) xs)

element-with_room :
    (slot i : ℕ) (xs : List Allocation)
    → slot + 1 < 2 ^ 64
    → element (with_room slot xs) i ≡ element xs i
unfolding with_room
element-with_room slot i xs small = elim (Bool-cases (leb (length xs) slot)) [
  | inl short ↦
      let whole : (slot + 1) % 2 ^ 64 ≡ slot + 1 = omega arith in
      rw (short, whole) (element-resize (slot + 1) i xs (ground arith))
  | inr long ↦ rw long refl
]

-- An update with at least one consumer, in a slot below 2^64 - 1, is recorded at its slot: the payload is kept, unless the slot has one,
-- and its consumers are added. Every other allocation stays as it was.
pub insert_allocation-recorded :
    (key n : ℕ) (p : Payload) (m : Allocations)
    → 0 < n
    → p.slot_handle + 1 < 2 ^ 64
    → (m' : Allocations) × (insert_allocation key p n m ≡ some m')
      × ((k i : ℕ)
          → allocation_of k i m' ≡ (
              if (key == k) && (p.slot_handle == i)
              then retain p n (allocation_of key p.slot_handle m)
              else allocation_of k i m))
unfolding insert_allocation allocation_of
insert_allocation-recorded key n p m some_consumers small =
    let old = value_or (find key m) [] in
    let slot = p.slot_handle in
    let room = length-with_room slot old small in
    let a = element (with_room slot old) slot in
    (
      insert_or_assign key (set (with_room slot old) slot (retain p n a)) m,
      ground (arith, get_elem?_of_lt (with_room slot old) slot room),
      λ k i. ground (
        arith,
        find-insert_or_assign k key (set (with_room slot old) slot (retain p n a)) m,
        element-set (with_room slot old) slot i (retain p n a) room,
        element-with_room slot i old small,
        element-with_room slot slot old small,
      ),
    )

-- A report changes the allocation of its slot alone.
payload_consumed-allocation_of :
    (key k i : ℕ) (h : Handle) (m : Allocations)
    → allocation_of k i (payload_consumed key h m) ≡ (
        if (key == k) && (h.slot_index == i)
        then consume (allocation_of key h.slot_index m)
        else allocation_of k i m)
unfolding payload_consumed allocation_of
payload_consumed-allocation_of key k i h m = elim (Option-cases (find key m)) [
  | inl missing ↦ rw (missing, payload_consumed) (ground arith)
  | inr (xs, found) ↦ elim (Option-cases (get_elem? xs h.slot_index)) [
    | inl out ↦ ground arith
    | inr (a, at) ↦ ground (
      arith,
      find-insert_or_assign k key (set xs h.slot_index (consume a)) m,
      element-set xs h.slot_index i (consume a) (lt_of_get_elem? xs h.slot_index a at),
    )
  ]
]

-- The reports of `n` consumers.
unfoldable pub reports : ℕ → ℕ → Handle → Allocations → Allocations
reports zero key h m = m
reports (suc n) key h m = reports n key h (payload_consumed key h m)

reports-held :
    (j r key : ℕ) (p : Payload) (h : Handle) (m : Allocations)
    → j ≤ r
    → allocation_of key h.slot_index m ≡ record { payload = some p; pending_consumers = suc r }
    → allocation_of key h.slot_index (reports j key h m)
      ≡ record { payload = some p; pending_consumers = suc r - j }
unfolding reports consume retain
reports-held zero r key p h m le e = ground arith
reports-held (suc j) zero key p h m le e = elim le [ ]
reports-held (suc j) (suc r) key p h m le e =
    reports-held j r key p h (payload_consumed key h m) (omega arith) (step r key p h m e)
    ∙ ap (λ n. record { payload = some p; pending_consumers = n }) (omega arith)
  where
    step :
        (r key : ℕ) (p : Payload) (h : Handle) (m : Allocations)
        → allocation_of key h.slot_index m
          ≡ record { payload = some p; pending_consumers = suc (suc r) }
        → allocation_of key h.slot_index (payload_consumed key h m)
          ≡ record { payload = some p; pending_consumers = suc r }
    step r key p h m e = ground (arith, payload_consumed-allocation_of key key h.slot_index h m)

reports-last :
    (r key : ℕ) (p : Payload) (h : Handle) (m : Allocations)
    → allocation_of key h.slot_index m ≡ record { payload = some p; pending_consumers = suc r }
    → allocation_of key h.slot_index (reports (suc r) key h m) ≡ no_allocation
unfolding reports consume
reports-last zero key p h m e =
    ground (arith, payload_consumed-allocation_of key key h.slot_index h m)
reports-last (suc r) key p h m e =
    reports-last r key p h (payload_consumed key h m)
      (ground (arith, payload_consumed-allocation_of key key h.slot_index h m))

-- A payload that is inserted at a free slot below 2^64 - 1 for `n` consumers, 0 < n < 2^64, is held
-- after fewer than `n` reports, and let go by the report of the `n`th.
pub payload_held :
    (key n j : ℕ) (p : Payload) (h : Handle) (m m' : Allocations)
    → 0 < n
    → n < 2 ^ 64
    → p.slot_handle + 1 < 2 ^ 64
    → h.slot_index ≡ p.slot_handle
    → allocation_of key p.slot_handle m ≡ no_allocation
    → insert_allocation key p n m ≡ some m'
    → j < n
    → ((allocation_of key h.slot_index (reports j key h m')).payload ≡ some p)
      × (allocation_of key h.slot_index (reports n key h m') ≡ no_allocation)
unfolding retain
payload_held key zero j p h m m' some_consumers small room at free e lt = elim lt [ ]
payload_held key (suc r) j p h m m' some_consumers small room at free e lt = (
  ap (λ a. a.payload) (reports-held j r key p h m' (omega arith) start),
  reports-last r key p h m' start,
)
  where
    start :
        allocation_of key h.slot_index m' ≡ record { payload = some p; pending_consumers = suc r }
    start =
        let (m'', given, effect) = insert_allocation-recorded key (suc r) p m some_consumers room in
        let same : m'' ≡ m' = ground arith in
        rw (at, ← same) (ground (arith, effect key p.slot_handle))

-- A payload without a slot, which has the greatest `size_t` for its handle, makes `insert_allocation`
-- write behind the end of its vector, if there is a consumer and the vector has fewer than 2^64
-- elements.
pub insert_allocation_no_slot :
    (key n : ℕ) (p : Payload) (m : Allocations)
    → 0 < n
    → p.slot_handle ≡ 2 ^ 64 - 1
    → length (value_or (find key m) []) < 2 ^ 64
    → insert_allocation key p n m ≡ none
unfolding insert_allocation with_room resize
insert_allocation_no_slot key n p m some_consumers top small = ground arith
