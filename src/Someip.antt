-- ===== src/Someip.antt =====
-- Events between the gateway daemon and the SOME/IP daemon: score/gatewayd/impl and
-- score/someipd/impl write and read a SOME/IP message in the payload of score/socom/payload.hpp. The
-- configuration is a value. What vsomeip, the proxies and the skeletons give is an argument, and what
-- is handed to them a result.
pub mod Writing
pub mod Payload
pub mod Delivery
pub mod Reception
pub mod Contexts
pub mod Slots
pub mod Samples
pub mod Network
mod Tests
use inc_someip_gateway.Base.{
  ℕ, zero, suc, ◌+◌, ◌-◌, ◌/◌, ◌%◌, ◌^◌, List, [], ◌∷◌, ◌++◌, Option, none, some, if◌then◌else◌,
  ltb, leb, length, set,
}

-- `kSomeipFullHeaderSize`.
abbrev pub full_header_size : ℕ
full_header_size = 16

-- `wdata()[pos] = b`; `none` for a place outside the span.
unfoldable pub write_byte : ℕ → ℕ → List ℕ → Option (List ℕ)
write_byte pos b m = if ltb pos (length m) then some (set m pos b) else none

-- One write for each byte, at `pos++`.
unfoldable pub write_bytes : ℕ → List ℕ → List ℕ → Option (List ℕ)
write_bytes pos [] m = some m
write_bytes pos (b ∷ bs) m = elim (write_byte pos b m) [
  | none ↦ none
  | some m' ↦ write_bytes (pos + 1) bs m'
]

-- The two bytes of a `std::uint16_t`, and the four of a `std::uint32_t`, with the highest first.
unfoldable pub two_bytes : ℕ → List ℕ
two_bytes x = (x / 256 % 256) ∷ (x % 256) ∷ []

unfoldable pub four_bytes : ℕ → List ℕ
four_bytes x = (x / 16777216 % 256) ∷ (x / 65536 % 256) ∷ (x / 256 % 256) ∷ (x % 256) ∷ []

-- What the handlers of events do: nothing, an access outside of the memory, an update of an event at
-- the server connector, a notification through vsomeip, a sample for the local clients.
pub data Outcome (P S : Type 0) : Type 0 where
  drops : Outcome P S
  faults : Outcome P S
  updates : ℕ → P → Outcome P S
  notifies : ℕ → ℕ → ℕ → List ℕ → Outcome P S
  sends : S → Outcome P S
