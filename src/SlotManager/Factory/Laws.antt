-- ===== src/SlotManager/Factory/Laws.antt =====
-- What the factory's configuration holds, and that the memory that a writer fills is the memory that
-- a reader sees.
use inc_someip_gateway.Base.{
  ℕ, zero, suc, ◌+◌, ◌*◌, ◌%◌, ◌^◌, ◌≤◌, ◌<◌, ◌≡◌, refl, List, [], ◌∷◌, Option, some, ok, min, ap,
  sym, ◌∙◌, if◌then◌else◌, arith, value_or, ◌&&◌, Option-cases, inl, inr,
}
use native.Mathlib.Nat.{mod-lt, suc-mul}
use native.Mathlib.Decide.{dec_lt}
use inc_someip_gateway.Map.{find, insert_or_assign}
use inc_someip_gateway.Map.Laws.{find-insert_or_assign}
use inc_someip_gateway.Strings.{string_eq, list_beq}
use inc_someip_gateway.Wire.{
  Service, service_eq, service_beq, service_beq_iff, InstanceId, Metadata, MemoryConfig, Handle,
}
use inc_someip_gateway.SlotManager.{
  Manager, Span, make_manager, init_slots, load_offset, get_memory, get_reference_count, size_mod,
}
use inc_someip_gateway.SlotManager.Counts.{
  IsValid, load_offset_lem, make_manager-IsValid, length-init_slots,
}
use inc_someip_gateway.SlotManager.Contract.{lt_of_counted}
use inc_someip_gateway.SlotManager.Memory.{get_memory-ok, address_below, below}
use inc_someip_gateway.SlotManager.Factory.{
  MemoryFactory, Configuration, create_shared_memory_slot_manager, create, register_configuration,
  register_entry, ReadOnlyManager, get_payload, open_read_only_manager,
}

-- The metadata of a service instance.
abbrev pub metadata_of : Service → InstanceId → Configuration → Option Metadata
metadata_of s i c = find i (value_or (find s c) [])

-- The last entry of the list for a service instance, or else the old metadata.
unfoldable pub latest : Service → InstanceId → Option Metadata → List MemoryConfig → Option Metadata
latest s i old [] = old
latest s i old (e ∷ rest) =
    latest s i
      (if service_beq e.service s && list_beq e.instance_id i then some e.metadata else old) rest

register_entry-metadata_of :
    (s : Service) (i : InstanceId) (c : Configuration) (e : MemoryConfig)
    → metadata_of s i (register_entry c e) ≡ (
        if service_beq e.service s && list_beq e.instance_id i
        then some e.metadata
        else metadata_of s i c)
unfolding register_entry
register_entry-metadata_of s i c e =
    rw
      (find-insert_or_assign s e.service
        (insert_or_assign e.instance_id e.metadata (value_or (find e.service c) [])) c)
      (ground (
        arith,
        service_beq_iff e.service s,
        find-insert_or_assign i e.instance_id e.metadata (value_or (find e.service c) []),
      ))

-- After a registration each service instance has the metadata of its last entry in the message, and
-- one that the message does not name keeps its metadata.
register_configuration-latest :
    (s : Service) (i : InstanceId) (c : Configuration) (configs : List MemoryConfig)
    → metadata_of s i (register_configuration c configs) ≡ latest s i (metadata_of s i c) configs
unfolding register_configuration latest
register_configuration-latest s i c [] = refl
register_configuration-latest s i c (e ∷ rest) =
    register_configuration-latest s i (register_entry c e) rest
    ∙ ap (λ o. latest s i o rest) (register_entry-metadata_of s i c e)

-- A manager is created only for a configured instance, with the slot size and the slot count of its
-- metadata, neither of them 0, in memory of their product modulo 2^64.
create-eq-ok :
    (f : MemoryFactory) (c : Configuration) (s : Service) (i : InstanceId) (m : Manager)
    → create f c s i ≡ ok m
    → (md : Metadata) × (base : ℕ) × (metadata_of s i c ≡ some md)
      × (0 < md.slot_size)
      × (0 < md.slot_count)
      × (f.create_and_allocate md.path ((md.slot_count * md.slot_size) % 2 ^ 64) ≡ some base)
      × (m ≡ make_manager md.slot_size md.slot_count base md.path)
unfolding create create_shared_memory_slot_manager
create-eq-ok f c s i m e = elim (Option-cases (find s c)) [
  | inl missing ↦ absurd (ground arith)
  | inr (instances, found) ↦ elim (Option-cases (find i instances)) [
    | inl missing ↦ absurd (ground arith)
    | inr (md, at) ↦
        elim (Option-cases
          (f.create_and_allocate md.path ((md.slot_count * md.slot_size) % 2 ^ 64))) [
            | inl missing ↦ absurd (ground arith)
            | inr (base, given) ↦
                (md, base, ground arith, ground arith, ground arith, given, ground arith)
          ]
  ]
]

-- Every slot of a new manager lies within the memory that was allocated for it, if the product of
-- slot count and slot size does not overflow.
created_within :
    (f : MemoryFactory) (path : List ℕ) (count size h : ℕ) (m : Manager)
    → create_shared_memory_slot_manager f path count size ≡ ok m
    → count * size < 2 ^ 64
    → h < count
    → (base : ℕ) × (f.create_and_allocate path (count * size) ≡ some base)
      × (m.base_address ≡ base)
      × (h * m.slot_size + m.slot_size ≤ count * size)
unfolding create_shared_memory_slot_manager make_manager
created_within f path count size h m e small lt =
    let total : (count * size) % size_mod ≡ count * size = grind arith in
    elim (Option-cases (f.create_and_allocate path ((count * size) % size_mod))) [
      | inl missing ↦ absurd (ground arith)
      | inr (base, given) ↦
          let inside : h * size + size ≤ count * size = grind arith in
          (base, rw total at given, ground arith, ground arith)
    ]

-- Among slots that take 2^64 bytes or more there is one that starts below 2^64 and ends there or
-- behind it.
crossing :
    (count size : ℕ)
    → 2 ^ 64 ≤ count * size
    → (h : ℕ) × (h < count) × (h * size < 2 ^ 64) × (2 ^ 64 ≤ h * size + size)
crossing zero size big = absurd (omega arith)
crossing (suc n) size big = elim (dec_lt (n * size) (2 ^ 64)) [
  | yes below ↦ (n, omega arith, below, omega (arith, suc-mul n size))
  | no beyond ↦
      let (h, lt, start, end) = crossing n size (omega arith) in (h, omega arith, start, end)
]

-- In a new manager, a slot that crosses 2^64 ends behind the memory that was allocated.
behind :
    (path : List ℕ) (count size base h : ℕ)
    → h < count
    → h * size < 2 ^ 64
    → 2 ^ 64 ≤ h * size + size
    → ((make_manager size count base path).base_address ≡ base)
      × (h < (make_manager size count base path).slot_count)
      × (((count * size) % 2 ^ 64)
          < load_offset (make_manager size count base path).slots h
            + (make_manager size count base path).slot_size)
unfolding make_manager
behind path count size base h lt start end =
    let v : IsValid (make_manager size count base path) =
      make_manager-IsValid size count base path in
    let long = length-init_slots size 0 count in
    let offset =
      load_offset_lem size 0 (init_slots size 0 count) h (unfold make_manager in v.spaced)
        (omega arith) in
    let unwrapped : (h * size) % 2 ^ 64 ≡ h * size = grind arith in
    let zero_h : 0 + h ≡ h = omega arith in
    (
      refl,
      lt,
      rw (offset, zero_h, unwrapped)
          (omega (arith, mod-lt (count * size) {m = 2 ^ 64} (omega arith))),
    )

-- The product is not checked: where a manager is made for slots that take 2^64 bytes or more
-- together, one of its slots, which starts where the manager says, ends behind the memory that was
-- allocated.
pub created_overflow :
    (f : MemoryFactory) (path : List ℕ) (count size : ℕ) (m : Manager)
    → create_shared_memory_slot_manager f path count size ≡ ok m
    → 2 ^ 64 ≤ count * size
    → (base h : ℕ) × (f.create_and_allocate path ((count * size) % 2 ^ 64) ≡ some base)
      × (m.base_address ≡ base)
      × (h < m.slot_count)
      × (((count * size) % 2 ^ 64) < load_offset m.slots h + m.slot_size)
unfolding create_shared_memory_slot_manager
created_overflow f path count size m e big =
    elim (Option-cases (f.create_and_allocate path ((count * size) % size_mod))) [
      | inl missing ↦ absurd (ground arith)
      | inr (base, given) ↦
          let made : make_manager size count base path ≡ m = ground arith in
          let (h, lt, start, end) = crossing count size big in
          let (same, inside, beyond) = behind path count size base h lt start end in
          (base, h, given, rw (← made) same, rw (← made) inside, rw (← made) beyond)
    ]

-- What the library of shared memory promises: memory that is opened for reading shows the bytes of
-- the memory that was created under its path. `written` and `read` are the bytes at an address in
-- the two processes.
abbrev pub IsShared : MemoryFactory → (ℕ → ℕ) → (ℕ → ℕ) → Type 0
IsShared f written read =
    (path : List ℕ) (size from to k : ℕ)
    → f.create_and_allocate path size ≡ some from
    → f.open_read_only path ≡ some to
    → k < size
    → read (to + k) ≡ written (from + k)

add_assoc : (a b c : ℕ) → a + b + c ≡ a + (b + c)
add_assoc a b c = omega arith

-- A reader opens the memory by the metadata with which the manager was made, the library shows it the
-- bytes of the created memory, and neither memory reaches the address 2^64. Then the payload at the
-- handle of an allocated slot has as many bytes as were used, but at most a slot, and each of them is
-- the byte that the writer has at this place of the slot.
pub get_payload_same :
    (f : MemoryFactory) (md : Metadata) (written read : ℕ → ℕ) (m : Manager) (r : ReadOnlyManager)
    (h : Handle)
    → IsShared f written read
    → f.create_and_allocate md.path ((md.slot_count * md.slot_size) % 2 ^ 64) ≡ some m.base_address
    → m.slot_size ≡ md.slot_size
    → m.slot_count ≡ md.slot_count
    → IsValid m
    → open_read_only_manager f md ≡ ok r
    → m.base_address + md.slot_count * md.slot_size < 2 ^ 64
    → r.base_address + md.slot_count * md.slot_size < 2 ^ 64
    → 0 < get_reference_count m h.slot_index
    → (s p : Span) × (get_memory m h.slot_index ≡ ok s)
      × (get_payload r h ≡ some p)
      × (p.bytes ≡ min h.used_bytes s.bytes)
      × ((k : ℕ) → k < p.bytes → read (p.address + k) ≡ written (s.address + k))
unfolding get_payload open_read_only_manager
get_payload_same f md written read m r h shared created same_size same_count v opened ends
      reader_ends used =
    elim (Option-cases (f.open_read_only md.path)) [
      | inl missing ↦ absurd (ground arith)
      | inr (to, given) ↦
          let reader : ReadOnlyManager = record {
            base_address = to;
            slot_size = md.slot_size;
            slot_count = md.slot_count;
          } in
          let is_reader : r ≡ reader = ground arith in
          let i = h.slot_index in
          let total = md.slot_count * md.slot_size in
          let lt : i < md.slot_count = rw (← same_count) (lt_of_counted m i used) in
          let inside = below i md.slot_count md.slot_size lt in
          let at_writer =
            address_below m.base_address (i * md.slot_size) total (omega arith) ends in
          let at_reader =
            address_below to (i * md.slot_size) total (omega arith) (rw is_reader at reader_ends) in
          let unwrapped : total % 2 ^ 64 ≡ total = grind arith in
          (
            record { address = m.base_address + i * md.slot_size; bytes = md.slot_size },
            record { address = to + i * md.slot_size; bytes = min h.used_bytes md.slot_size },
            rw (get_memory-ok m i v (lt_of_counted m i used) used, same_size, at_writer) refl,
            rw (is_reader, get_payload) (ground (arith, at_reader)),
            refl,
            λ k few.
                let left = ap read (add_assoc to (i * md.slot_size) k) in
                let right = ap written (add_assoc m.base_address (i * md.slot_size) k) in
                left
                ∙ shared md.path (total % 2 ^ 64) m.base_address to (i * md.slot_size + k) created
                    given (rw unwrapped (ground arith))
                ∙ sym right,
          )
    ]
