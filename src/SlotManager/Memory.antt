-- ===== src/SlotManager/Memory.antt =====
-- Where the slots of a manager lie in its shared memory.
use inc_someip_gateway.Base.{
  ℕ, ◌+◌, ◌*◌, ◌%◌, ◌^◌, ◌≤◌, ◌<◌, ◌≡◌, ◌≢◌, ◌⊎◌, inl, inr, ok, arith, refl, ◌∙◌,
}
use native.Mathlib.Decide.{dec_lt}
use inc_someip_gateway.SlotManager.{Manager, Span, get_memory, get_reference_count}
use inc_someip_gateway.SlotManager.Counts.{IsValid, load_offset_lem}

-- An allocated slot has its own memory; it starts at the handle's multiple of the slot size, as
-- a `size_t`.
pub get_memory-ok :
    (m : Manager) (h : ℕ)
    → IsValid m
    → h < m.slot_count
    → 0 < get_reference_count m h
    → get_memory m h
      ≡ ok (record {
        address = (m.base_address + (h * m.slot_size) % 2 ^ 64) % 2 ^ 64;
        bytes = m.slot_size;
      })
unfolding get_memory get_reference_count
get_memory-ok m h v lt used =
    ground (arith, load_offset_lem m.slot_size 0 m.slots h v.spaced, v.sized)

-- What a successful `get_memory` tells.
get_memory-eq-ok :
    (m : Manager) (h : ℕ) (s : Span)
    → IsValid m
    → get_memory m h ≡ ok s
    → (h < m.slot_count)
      × (s.address ≡ (m.base_address + (h * m.slot_size) % 2 ^ 64) % 2 ^ 64)
      × (s.bytes ≡ m.slot_size)
unfolding get_memory get_reference_count
get_memory-eq-ok m h s v e =
    ground (arith, load_offset_lem m.slot_size 0 m.slots h v.spaced, v.sized)

pub below : (h k size : ℕ) → h < k → h * size + size ≤ k * size
below h k size lt = grind arith

-- Below 2^64 an address does not wrap.
pub address_below :
    (base x total : ℕ) → x ≤ total → base + total < 2 ^ 64 → (base + x % 2 ^ 64) % 2 ^ 64 ≡ base + x
address_below base x total le small =
    let inner : x % 2 ^ 64 ≡ x = grind arith in
    let outer : (base + x) % 2 ^ 64 ≡ base + x = grind arith in rw (inner, outer) refl

-- Where the memory of the manager ends below the address 2^64, so that neither an offset nor an
-- address wraps: the memory of a slot lies within the `slot_count * slot_size` bytes from the base
-- address on, and the memory of two different slots has no byte in common.
pub get_memory_separate :
    (m : Manager) (h k : ℕ) (s t : Span)
    → IsValid m
    → m.base_address + m.slot_count * m.slot_size < 2 ^ 64
    → get_memory m h ≡ ok s
    → get_memory m k ≡ ok t
    → h ≢ k
    → (m.base_address ≤ s.address)
      × (s.address + s.bytes ≤ m.base_address + m.slot_count * m.slot_size)
      × ((s.address + s.bytes ≤ t.address) ⊎ (t.address + t.bytes ≤ s.address))
get_memory_separate m h k s t v ends eh ek ne =
    let first = get_memory-eq-ok m h s v eh in
    let second = get_memory-eq-ok m k t v ek in
    let total = m.slot_count * m.slot_size in
    let inside = below h m.slot_count m.slot_size first.0 in
    let within = below k m.slot_count m.slot_size second.0 in
    let at_h : s.address ≡ m.base_address + h * m.slot_size =
      first.1 ∙ address_below m.base_address (h * m.slot_size) total (omega arith) ends in
    let at_k : t.address ≡ m.base_address + k * m.slot_size =
      second.1 ∙ address_below m.base_address (k * m.slot_size) total (omega arith) ends in
    (
      omega arith,
      omega arith,
      elim (dec_lt h k) [
        | yes lt ↦ inl (omega (arith, below h k m.slot_size lt))
        | no ge ↦ inr (omega (arith, below k h m.slot_size (omega arith)))
      ],
    )
