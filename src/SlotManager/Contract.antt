-- ===== src/SlotManager/Contract.antt =====
-- What `allocate_slot`, `add_consumer` and `release_slot` do to the counts, on every branch.
use inc_someip_gateway.Base.{
  ℕ, ◌+◌, ◌-◌, ◌^◌, ◌≤◌, ◌<◌, ◌≡◌, refl, some, ok, err, if◌then◌else◌, ◌==◌, leb, inl, inr, arith,
  ap, subst, Option-cases, Bool-cases, Result, ap,
}
use inc_someip_gateway.SlotManager.{
  Manager, Error, logic_error_invalid_slot_handle, runtime_error_slot_not_allocated,
  runtime_error_no_available_slots, load_count, store_count, first_free, allocate_slot,
  add_consumer, release_slot, get_allocated_slot_count, get_reference_count,
}
use inc_someip_gateway.SlotManager.Counts.{
  IsValid, load_count-store_count, load_count-lt, first_free-some, first_free-none, in_use,
  count_allocated-store_count, store_count-IsValid,
}

-- The counts of `n` are those of `m`, but for slot `h`, whose count is `c`.
pub record Updates (m n : Manager) (h c : ℕ) : Type 0 where
  pub written : (j : ℕ) → get_reference_count n j ≡ (if h == j then c else get_reference_count m j)
  pub allocated :
      get_allocated_slot_count n + in_use (get_reference_count m h)
      ≡ get_allocated_slot_count m + in_use c
  pub same_count : n.slot_count ≡ m.slot_count
  pub valid : IsValid n

store_count-Updates :
    (m : Manager) (h raw c : ℕ)
    → raw ≡ c
    → IsValid m
    → h < m.slot_count
    → c < 2 ^ 32
    → Updates m (record m { slots = store_count m.slots h raw }) h c
unfolding get_reference_count get_allocated_slot_count
store_count-Updates m h raw c same v lt small = record {
  written = λ j. ground (arith, load_count-store_count m.slots h j raw, v.sized);
  allocated = ground (arith, count_allocated-store_count m.slots h raw, v.sized);
  same_count = refl;
  valid = store_count-IsValid m h raw (omega arith) v;
}

-- `allocate_slot` fails, with the manager unchanged, exactly when every slot is in use; otherwise
-- it takes the free slot with the least handle, whose count becomes 1.
pub data Allocation (m : Manager) : Manager × Result Error ℕ → Type 0 where
  full :
      ((k : ℕ) → k < m.slot_count → 0 < get_reference_count m k)
      → Allocation m (m, err runtime_error_no_available_slots)
  taken :
      (n : Manager) (h : ℕ)
      → h < m.slot_count
      → get_reference_count m h ≡ 0
      → ((k : ℕ) → k < h → 0 < get_reference_count m k)
      → Updates m n h 1
      → Allocation m (n, ok h)

-- Allocation in a valid manager gives the first slot whose count is 0, whose count becomes 1 and no
-- other changes; if there is none, it gives an error, every count is above 0 and nothing changes.
pub allocate_slot-Allocation : (m : Manager) → IsValid m → Allocation m (allocate_slot m)
unfolding allocate_slot get_reference_count
allocate_slot-Allocation m v = elim (Option-cases (first_free 0 m.slots)) [
  | inl e ↦
      rw (e, allocate_slot) (full (λ k lt. ground (arith, first_free-none 0 m.slots e k, v.sized)))
  | inr (h, e) ↦ rw (e, allocate_slot) (found h e)
]
  where
    found :
        (h : ℕ)
        → first_free 0 m.slots ≡ some h
        → Allocation m (record m { slots = store_count m.slots h 1 }, ok h)
    found h e =
        let (j, same, lt, free, before) = first_free-some 0 m.slots h e in
        let at : j ≡ h = omega arith in
        let inside : h < m.slot_count = omega (arith, v.sized) in
        taken _ h inside (ground (arith, ap (load_count m.slots) at))
          (λ k lt. ground (arith, before k))
          (store_count-Updates m h 1 1 refl v inside (omega arith))

-- A handle out of range and a slot that is not allocated are refused, with the manager unchanged;
-- otherwise the count of the slot becomes `c`.
pub data Change (m : Manager) (h c : ℕ) : Manager × Result Error (Unit {0}) → Type 0 where
  invalid : m.slot_count ≤ h → Change m h c (m, err logic_error_invalid_slot_handle)
  unallocated :
      h < m.slot_count
      → get_reference_count m h ≡ 0
      → Change m h c (m, err runtime_error_slot_not_allocated)
  changed :
      (n : Manager)
      → h < m.slot_count
      → 0 < get_reference_count m h
      → Updates m n h c
      → Change m h c (n, ok tt)

module _ (m : Manager) (h : ℕ) (v : IsValid m) where
  refused :
      (c : ℕ) (later : Manager × Result Error (Unit {0}))
      → (h < m.slot_count → 0 < load_count m.slots h → Change m h c later)
      → Change m h c (
          if leb m.slot_count h
          then (m, err logic_error_invalid_slot_handle)
          else if load_count m.slots h == 0
          then (m, err runtime_error_slot_not_allocated)
          else later)
  unfolding get_reference_count
  refused c later go = elim (Bool-cases (leb m.slot_count h)) [
    | inl out ↦ rw out (invalid (ground arith))
    | inr inside ↦ rw inside (elim (Bool-cases (load_count m.slots h == 0)) [
      | inl free ↦ rw free (unallocated (ground arith) (ground arith))
      | inr used ↦ rw used (go (ground arith) (ground arith))
    ])
  ]

  -- In a valid manager, a slot in use whose count is below its greatest value gains one reference
  -- and no other changes; a handle out of range and a slot not in use are refused with their errors,
  -- and nothing changes.
  add_consumer-Change :
      get_reference_count m h + 1 < 2 ^ 32
      → Change m h (get_reference_count m h + 1) (add_consumer m h)
  unfolding add_consumer get_reference_count
  add_consumer-Change small =
      refused _ _ λ lt used.
        changed _ lt (ground arith) (store_count-Updates m h _ _ (ground arith) v lt small)

  -- In a valid manager, a slot in use loses one reference and no other changes; a handle out of range
  -- and a slot not in use are refused with their errors, and nothing changes.
  pub release_slot-Change : Change m h (get_reference_count m h - 1) (release_slot m h)
  unfolding release_slot get_reference_count
  release_slot-Change = refused _ _ λ lt used. changed _ lt (ground arith) (
      store_count-Updates m h _ _ (ground (arith, load_count-lt m.slots h v.small)) v lt
        (ground (arith, load_count-lt m.slots h v.small)))

-- The same, read from the result.
pub allocate_slot_ok :
    (m n : Manager) (h : ℕ)
    → IsValid m
    → allocate_slot m ≡ (n, ok h)
    → (h < m.slot_count)
      × (get_reference_count m h ≡ 0)
      × ((k : ℕ) → k < h → 0 < get_reference_count m k)
      × Updates m n h 1
allocate_slot_ok m n h v = from (allocate_slot-Allocation m v)
  where
    from :
        {r : Manager × Result Error ℕ}
        → Allocation m r
        → r ≡ (n, ok h)
        → (h < m.slot_count)
          × (get_reference_count m h ≡ 0)
          × ((k : ℕ) → k < h → 0 < get_reference_count m k)
          × Updates m n h 1
    from (full _) e = absurd (cc)
    from (taken n' h' lt free before u) e =
        let he : h' ≡ h = cc in
        let me : n' ≡ n = ap (λ p. p.0) e in
        (
          rw (← he) lt,
          rw (← he) free,
          rw (← he) before,
          subst (λ x. Updates m x h 1) me (rw (← he) u),
        )

-- Only a slot of the manager has a count.
pub lt_of_counted : (m : Manager) (h : ℕ) → 0 < get_reference_count m h → h < m.slot_count
unfolding get_reference_count
lt_of_counted m h used = ground arith

pub release_slot-Updates :
    (m : Manager) (h : ℕ)
    → IsValid m
    → 0 < get_reference_count m h
    → Updates m (release_slot m h).0 h (get_reference_count m h - 1)
release_slot-Updates m h v used = from (release_slot-Change m h v)
  where
    from :
        {r : Manager × Result Error (Unit {0})}
        → Change m h (get_reference_count m h - 1) r
        → Updates m r.0 h (get_reference_count m h - 1)
    from (invalid out) = absurd (omega (arith, lt_of_counted m h used))
    from (unallocated lt free) = absurd (omega arith)
    from (changed n lt _ u) = u

pub add_consumer_ok :
    (m n : Manager) (h : ℕ) (r : Result Error (Unit {0}))
    → IsValid m
    → 0 < get_reference_count m h
    → get_reference_count m h + 1 < 2 ^ 32
    → add_consumer m h ≡ (n, r)
    → (r ≡ ok tt) × Updates m n h (get_reference_count m h + 1)
add_consumer_ok m n h r v used small e = from (add_consumer-Change m h v small) e
  where
    from :
        {q : Manager × Result Error (Unit {0})}
        → Change m h (get_reference_count m h + 1) q
        → q ≡ (n, r)
        → (r ≡ ok tt) × Updates m n h (get_reference_count m h + 1)
    from (invalid out) e = absurd (omega (arith, lt_of_counted m h used))
    from (unallocated lt free) e = absurd (omega arith)
    from (changed n' lt _ u) e =
        (cc, subst (λ x. Updates m x h (get_reference_count m h + 1)) (ap (λ p. p.0) e) u)
