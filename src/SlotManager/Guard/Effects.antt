-- ===== src/SlotManager/Guard/Effects.antt =====
-- What `reset` and `share` do to the reference counts.
use inc_someip_gateway.Base.{
  ℕ, ◌+◌, ◌^◌, ◌<◌, ◌≡◌, refl, true, false, some, arith, Bool-cases, inl, inr,
}
use inc_someip_gateway.SlotManager.{Manager, add_consumer, get_reference_count}
use inc_someip_gateway.SlotManager.Counts.{IsValid}
use inc_someip_gateway.SlotManager.Contract.{release_slot-Updates, add_consumer_ok}
use inc_someip_gateway.SlotManager.Guard.{Guard, create_slot_guard, reset, share}
use inc_someip_gateway.SlotManager.Guard.Owners.{holds}

-- What `reset` does to the counts: the reference that the guard held is given back.
pub record Drops (m n : Manager) (g g' : Guard) : Type 0 where
  pub valid : IsValid n
  pub dropped : (h : ℕ) → get_reference_count n h + holds h g ≡ get_reference_count m h
  pub emptied : g'.has_manager ≡ false

pub reset-Drops :
    (m : Manager) (g : Guard)
    → IsValid m
    → (g.has_manager ≡ true → 0 < get_reference_count m g.handle)
    → Drops m (reset m g).0 g (reset m g).1
unfolding reset
reset-Drops m g v used = elim (Bool-cases g.has_manager) [
  | inl held ↦
      let u = release_slot-Updates m g.handle v (used held) in
      rw (held, reset)
        (record {
          valid = u.valid;
          dropped = λ h. ground (arith, u.written h, used held);
          emptied = refl;
        })
  | inr empty ↦
      rw (empty, reset) (record { valid = v; dropped = λ h. ground arith; emptied = refl })
]

-- What `share` does to the counts: the new guard has a reference of its own.
pub record Adds (m n : Manager) (g' : Guard) : Type 0 where
  pub valid : IsValid n
  pub added : (h : ℕ) → get_reference_count n h ≡ get_reference_count m h + holds h g'

pub share-Adds :
    (m n : Manager) (g g' : Guard)
    → IsValid m
    → (g.has_manager ≡ true → 0 < get_reference_count m g.handle)
    → get_reference_count m g.handle + 1 < 2 ^ 32
    → share m g ≡ (n, some g')
    → Adds m n g'
unfolding share create_slot_guard
share-Adds m n g g' v used small e = elim (Bool-cases g.has_manager) [
  | inl held ↦
      let (sent, u) =
        add_consumer_ok m _ g.handle _ v (used held) small
          (λ i. ((add_consumer m g.handle).0, (add_consumer m g.handle).1)) in
      let same : n ≡ (add_consumer m g.handle).0 = ground arith in
      record {
        valid = rw same u.valid;
        added = λ h. rw same (ground (arith, u.written h, used held));
      }
  | inr empty ↦
      let same : n ≡ m = ground arith in
      record { valid = rw same v; added = λ h. rw same (ground arith) }
]
