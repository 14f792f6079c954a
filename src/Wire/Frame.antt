-- ===== src/Wire/Frame.antt =====
-- `get_message_type` and `check_and_cast` of
-- score/gateway_ipc_binding/impl/gateway_ipc_binding_util.hpp. The sizes and the alignment of a
-- message's frame are the compiler's: a `Layout` holds them, and the reader of the 16-bit length in
-- the header.
use inc_someip_gateway.Base.{
  ℕ, ◌+◌, ◌%◌, ◌≤◌, ◌<◌, ◌≡◌, List, [], ◌∷◌, ◌==◌, arith, Option, none, some, if◌then◌else◌, length,
  ltb, not,
}

pub record Layout : Type 0 where
  pub type : ℕ
  pub payload_size : ℕ
  pub payload_offset : ℕ
  pub frame_size : ℕ
  pub alignment : ℕ
  pub read_payload_size : List ℕ → ℕ

-- A message's payload lies within its frame.
pub record IsLayout (l : Layout) : Type 0 where
  pub header : 0 < l.payload_offset
  pub within : l.payload_offset + l.payload_size ≤ l.frame_size

-- `Message_type` of score/gateway_ipc_binding/gateway_ipc_binding.hpp.
unfoldable pub get_message_type : List ℕ → ℕ
get_message_type [] = 0
get_message_type (b ∷ rest) = b

-- The address of the payload in the data, which lie at `address`.
unfoldable pub check_and_cast : Layout → ℕ → List ℕ → Option ℕ
unfolding get_message_type
check_and_cast l address [] = none
check_and_cast l address (b ∷ rest) =
    if not (get_message_type (b ∷ rest) == l.type)
    then none
    else if ltb (length (b ∷ rest)) l.frame_size
    then none
    else if not (address % l.alignment == 0)
    then none
    else if not (l.read_payload_size (b ∷ rest) == l.payload_size)
    then none
    else some (address + l.payload_offset)

-- What a frame must meet.
pub record Accepted (l : Layout) (address : ℕ) (bytes : List ℕ) : Type 0 where
  pub not_empty : 0 < length bytes
  pub typed : get_message_type bytes ≡ l.type
  pub complete : l.frame_size ≤ length bytes
  pub aligned : address % l.alignment ≡ 0
  pub sized : l.read_payload_size bytes ≡ l.payload_size

-- A cast succeeds exactly when the frame has the type, the length, the alignment and the payload
-- size of the message, and then the whole payload lies within the received bytes.
pub check_and_cast-Accepted :
    (l : Layout) (address : ℕ) (bytes : List ℕ)
    → IsLayout l
    → (Accepted l address bytes
        → check_and_cast l address bytes ≡ some (address + l.payload_offset))
      × ((p : ℕ)
          → check_and_cast l address bytes ≡ some p
          → Accepted l address bytes
            × (address < p)
            × (p + l.payload_size ≤ address + length bytes))
unfolding check_and_cast get_message_type
check_and_cast-Accepted l address [] v = (λ a. absurd (omega (arith, a.not_empty)), λ p e. cc)
check_and_cast-Accepted l address (b ∷ rest) v = (
  λ a. ground arith,
  λ p e. (
    record {
      not_empty = omega arith;
      typed = ground arith;
      complete = ground arith;
      aligned = ground arith;
      sized = ground arith;
    },
    ground arith,
    ground arith,
  ),
)
