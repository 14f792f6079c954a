-- ===== src/SlotManager/Guard/Lifetime.antt =====
-- What holds in every state that a program reaches with guards and released handles.
use inc_someip_gateway.Base.{
  ℕ, suc, ◌+◌, ◌<◌, ◌≡◌, refl, true, List, [], ◌∷◌, some, ok, get_elem?, length, arith, ◌*◌, ◌%◌,
  ◌^◌,
}
use inc_someip_gateway.SlotManager.{
  Manager, Slot, allocate_slot, get_reference_count, get_allocated_slot_count, make_manager,
  count_allocated, load_count,
}
use inc_someip_gateway.SlotManager.Counts.{make_manager-IsValid, load_count-init_slots}
use inc_someip_gateway.SlotManager.Contract.{allocate_slot_ok, lt_of_counted}
use inc_someip_gateway.SlotManager.Memory.{get_memory-ok}
use inc_someip_gateway.SlotManager.Guard.{Guard, has_slot, get_memory_of}
use inc_someip_gateway.SlotManager.Guard.Owners.{owners, occurrences}
use inc_someip_gateway.SlotManager.Guard.Ownership.{
  System, Step, IsBalanced, Step-IsBalanced, guard_counted,
}

-- A new manager, with no guard.
unfoldable pub start : ℕ → ℕ → ℕ → List ℕ → System
start size count base path = record {
  manager = make_manager size count base path;
  guards = [];
  raw = [];
}

pub data Reach (s : System) : System → Type 0 where
  here : Reach s s
  later : {t u : System} → Reach s t → Step t u → Reach s u

start-IsBalanced : (size count base : ℕ) (path : List ℕ) → IsBalanced (start size count base path)
unfolding start get_reference_count owners occurrences make_manager
start-IsBalanced size count base path = record {
  valid = unfold start in make_manager-IsValid size count base path;
  counted = λ h. ground (arith, load_count-init_slots size 0 count h);
}

-- In every state that is reached, the count of each slot is the number of guards and released
-- handles that own it.
pub Reach-IsBalanced :
    (size count base : ℕ) (path : List ℕ) {s : System}
    → Reach (start size count base path) s
    → IsBalanced s
Reach-IsBalanced size count base path here = start-IsBalanced size count base path
Reach-IsBalanced size count base path (later r st) =
    Step-IsBalanced st (Reach-IsBalanced size count base path r)

-- A slot that `allocate_slot` hands out is owned by no guard and by no released handle.
pub allocate_slot_fresh :
    (size count base : ℕ) (path : List ℕ) (s : System) (n : Manager) (h : ℕ)
    → Reach (start size count base path) s
    → allocate_slot s.manager ≡ (n, ok h)
    → (owners h s.guards ≡ 0) × (occurrences h s.raw ≡ 0) × (h < s.manager.slot_count)
allocate_slot_fresh size count base path s n h r e =
    let b = Reach-IsBalanced size count base path r in
    let (lt, free, before, u) = allocate_slot_ok s.manager n h b.valid e in
    (omega (arith, b.counted h), omega (arith, b.counted h), lt)

-- A guard that holds a slot always gets the memory of its slot.
guard_memory :
    (size count base : ℕ) (path : List ℕ) (s : System) (i : ℕ) (g : Guard)
    → Reach (start size count base path) s
    → get_elem? s.guards i ≡ some g
    → has_slot g ≡ true
    → get_memory_of s.manager g
      ≡ some (record {
        address = (s.manager.base_address + (g.handle * s.manager.slot_size) % 2 ^ 64) % 2 ^ 64;
        bytes = s.manager.slot_size;
      })
unfolding get_memory_of has_slot
guard_memory size count base path s i g r at held =
    let b = Reach-IsBalanced size count base path r in
    let used = guard_counted s i g b at held in
    rw (held, get_memory-ok s.manager g.handle b.valid (lt_of_counted s.manager g.handle used) used)

all_free :
    (slots : List Slot)
    → ((h : ℕ) → h < length slots → load_count slots h ≡ 0)
    → count_allocated slots ≡ 0
unfolding count_allocated load_count
all_free [] f = refl
all_free (s ∷ rest) f =
    ground (arith, f 0 (omega arith), all_free rest (λ h lt. f (suc h) (omega arith)))

-- When the last owner is gone every slot is free again.
pub no_leak :
    (size count base : ℕ) (path : List ℕ) (s : System)
    → Reach (start size count base path) s
    → ((h : ℕ) → owners h s.guards + occurrences h s.raw ≡ 0)
    → get_allocated_slot_count s.manager ≡ 0
unfolding get_allocated_slot_count get_reference_count
no_leak size count base path s r none_left =
    let b = Reach-IsBalanced size count base path r in
    all_free s.manager.slots (λ h lt. ground (arith, b.counted h, none_left h, b.valid.sized))
