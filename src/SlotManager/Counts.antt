-- ===== src/SlotManager/Counts.antt =====
-- Each operation as an update of the reference counts, which are the manager's abstract state.
use inc_someip_gateway.Base.{
  ℕ, zero, suc, ◌+◌, ◌*◌, ◌%◌, ◌^◌, ◌<◌, ◌≡◌, refl, List, [], ◌∷◌, none, some, if◌then◌else◌, ◌==◌,
  ltb, ◌∙◌, length, inl, inr, arith, Bool-cases, false,
}
use inc_someip_gateway.SlotManager.{
  Manager, Slot, init_slots, make_manager, load_count, store_count, load_offset, first_free,
  count_allocated,
}

-- The counts are those of `slot_count` slots, each a `uint32_t`.
abbrev pub Small : List Slot → Type 0
Small [] = Unit
Small (s ∷ rest) = (s.reference_count < 2 ^ 32) × Small rest

-- Slot `i`, `i + 1`, … start at the multiples of the slot size, as a `size_t`.
abbrev pub Spaced : ℕ → ℕ → List Slot → Type 0
Spaced size i [] = Unit
Spaced size i (s ∷ rest) = (s.offset ≡ (i * size) % 2 ^ 64) × Spaced size (i + 1) rest

pub record IsValid (m : Manager) : Type 0 where
  pub sized : length m.slots ≡ m.slot_count
  pub small : Small m.slots
  pub spaced : Spaced m.slot_size 0 m.slots

length-store_count : (slots : List Slot) (h c : ℕ) → length (store_count slots h c) ≡ length slots
unfolding store_count
length-store_count [] h c = refl
length-store_count (s ∷ rest) zero c = refl
length-store_count (s ∷ rest) (suc h) c = omega (arith, length-store_count rest h c)

pub load_count-store_count :
    (slots : List Slot) (h j c : ℕ)
    → h < length slots
    → load_count (store_count slots h c) j ≡ (if h == j then c else load_count slots j)
unfolding load_count store_count
load_count-store_count [] h j c lt = elim lt [ ]
load_count-store_count (s ∷ rest) zero zero c lt = refl
load_count-store_count (s ∷ rest) zero (suc j) c lt = ground arith
load_count-store_count (s ∷ rest) (suc h) zero c lt = ground arith
load_count-store_count (s ∷ rest) (suc h) (suc j) c lt =
    ground (arith, load_count-store_count rest h j c (omega arith))

Small-store_count :
    (slots : List Slot) (h c : ℕ) → c < 2 ^ 32 → Small slots → Small (store_count slots h c)
unfolding store_count
Small-store_count [] h c lt v = tt
Small-store_count (s ∷ rest) zero c lt v = (lt, v.1)
Small-store_count (s ∷ rest) (suc h) c lt v = (v.0, Small-store_count rest h c lt v.1)

Spaced-store_count :
    (size i : ℕ) (slots : List Slot) (h c : ℕ)
    → Spaced size i slots
    → Spaced size i (store_count slots h c)
unfolding store_count
Spaced-store_count size i [] h c v = tt
Spaced-store_count size i (s ∷ rest) zero c v = v
Spaced-store_count size i (s ∷ rest) (suc h) c v =
    (v.0, Spaced-store_count size (i + 1) rest h c v.1)

pub load_count-lt : (slots : List Slot) (h : ℕ) → Small slots → load_count slots h < 2 ^ 32
unfolding load_count
load_count-lt [] h v = omega arith
load_count-lt (s ∷ rest) zero v = v.0
load_count-lt (s ∷ rest) (suc h) v = load_count-lt rest h v.1

-- What the search for a free slot tells: none is free, or the slot found is the first.
pub first_free-some :
    (i : ℕ) (slots : List Slot) (h : ℕ)
    → first_free i slots ≡ some h
    → (j : ℕ) × (h ≡ i + j)
      × (j < length slots)
      × (load_count slots j ≡ 0)
      × ((k : ℕ) → k < j → 0 < load_count slots k)
unfolding first_free load_count
first_free-some i [] h e = absurd (ground arith)
first_free-some i (s ∷ rest) h e = elim (Bool-cases (s.reference_count == 0)) [
  | inl free ↦ (0, ground arith, omega arith, ground arith, λ k lt. elim lt [ ])
  | inr used ↦ next (first_free-some (i + 1) rest h (rw used at e)) used
]
  where
    next :
        (j : ℕ) × (h ≡ i + 1 + j)
          × (j < length rest)
          × (load_count rest j ≡ 0)
          × ((k : ℕ) → k < j → 0 < load_count rest k)
        → (s.reference_count == 0) ≡ false
        → (j : ℕ) × (h ≡ i + j)
          × (j < length (s ∷ rest))
          × (load_count (s ∷ rest) j ≡ 0)
          × ((k : ℕ) → k < j → 0 < load_count (s ∷ rest) k)
    next (j, e, lt, free, before) used = (
      suc j,
      omega arith,
      omega arith,
      free,
      elim [ zero ↦ λ _. ground arith | suc k ↦ λ lt. before k (omega arith) ],
    )

pub first_free-none :
    (i : ℕ) (slots : List Slot)
    → first_free i slots ≡ none
    → (k : ℕ) → k < length slots
    → 0 < load_count slots k
unfolding first_free load_count
first_free-none i [] e k lt = elim lt [ ]
first_free-none i (s ∷ rest) e zero lt = ground arith
first_free-none i (s ∷ rest) e (suc k) lt =
    first_free-none (i + 1) rest (ground arith) k (omega arith)

-- One more slot is in use, or one less, as the count that is written tells.
abbrev pub in_use : ℕ → ℕ
in_use c = if ltb 0 c then 1 else 0

pub count_allocated-store_count :
    (slots : List Slot) (h c : ℕ)
    → h < length slots
    → count_allocated (store_count slots h c) + in_use (load_count slots h)
      ≡ count_allocated slots + in_use c
unfolding count_allocated store_count load_count
count_allocated-store_count [] h c lt = elim lt [ ]
count_allocated-store_count (s ∷ rest) zero c lt = omega arith
count_allocated-store_count (s ∷ rest) (suc h) c lt =
    omega (arith, count_allocated-store_count rest h c (omega arith))

pub load_offset_lem :
    (size i : ℕ) (slots : List Slot) (h : ℕ)
    → Spaced size i slots
    → h < length slots
    → load_offset slots h ≡ ((i + h) * size) % 2 ^ 64
unfolding load_offset
load_offset_lem size i [] h v lt = elim lt [ ]
load_offset_lem size i (s ∷ rest) zero v lt = let same : i + 0 ≡ i = omega arith in rw same v.0
load_offset_lem size i (s ∷ rest) (suc h) v lt =
    let same : i + suc h ≡ i + 1 + h = omega arith in
    rw same (load_offset_lem size (i + 1) rest h v.1 (omega arith))

init_slots-Spaced : (size i n : ℕ) → Spaced size i (init_slots size i n)
unfolding init_slots
init_slots-Spaced size i zero = tt
init_slots-Spaced size i (suc n) = (refl, init_slots-Spaced size (i + 1) n)

init_slots-Small : (size i n : ℕ) → Small (init_slots size i n)
unfolding init_slots
init_slots-Small size i zero = tt
init_slots-Small size i (suc n) = (omega arith, init_slots-Small size (i + 1) n)

pub length-init_slots : (size i n : ℕ) → length (init_slots size i n) ≡ n
unfolding init_slots
length-init_slots size i zero = refl
length-init_slots size i (suc n) = omega (arith, length-init_slots size (i + 1) n)

pub load_count-init_slots : (size i n h : ℕ) → load_count (init_slots size i n) h ≡ 0
unfolding init_slots load_count
load_count-init_slots size i zero h = refl
load_count-init_slots size i (suc n) zero = refl
load_count-init_slots size i (suc n) (suc h) = load_count-init_slots size (i + 1) n h

pub make_manager-IsValid :
    (size count base : ℕ) (path : List ℕ) → IsValid (make_manager size count base path)
unfolding make_manager
make_manager-IsValid size count base path = record {
  sized = length-init_slots size 0 count;
  small = init_slots-Small size 0 count;
  spaced = init_slots-Spaced size 0 count;
}

-- A write of a count within a `uint32_t` keeps the manager well formed.
pub store_count-IsValid :
    (m : Manager) (h c : ℕ)
    → c < 2 ^ 32
    → IsValid m
    → IsValid (record m { slots = store_count m.slots h c })
store_count-IsValid m h c lt v = record {
  sized = length-store_count m.slots h c ∙ v.sized;
  small = Small-store_count m.slots h c lt v.small;
  spaced = Spaced-store_count m.slot_size 0 m.slots h c v.spaced;
}
