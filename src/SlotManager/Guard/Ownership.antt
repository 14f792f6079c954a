-- ===== src/SlotManager/Guard/Ownership.antt =====
-- The guards of a program and the handles that it has taken out of guards own the references.
use inc_someip_gateway.Base.{
  ℕ, ◌+◌, ◌^◌, ◌<◌, ◌≡◌, ◌≢◌, ap, ◌∙◌, true, false, List, ◌∷◌, ◌++◌, some, ok, get_elem?, set,
  length, arith,
}
use inc_someip_gateway.SlotManager.{Manager, allocate_slot, release_slot, get_reference_count}
use inc_someip_gateway.SlotManager.Counts.{IsValid}
use inc_someip_gateway.SlotManager.Contract.{allocate_slot_ok, release_slot-Updates}
use inc_someip_gateway.SlotManager.Guard.{
  Guard, create_slot_guard, reset, release, move_construct, move_assign, share,
}
use inc_someip_gateway.SlotManager.Guard.Owners.{
  owners, occurrences, owners-set, get_elem?-set, holds-le-owners, owners-le, occurrences-le,
  occurrences-append,
}
use inc_someip_gateway.SlotManager.Guard.Effects.{reset-Drops, share-Adds}

-- A guard that is destroyed stays in the list as an empty one.
pub record System : Type 0 where
  pub manager : Manager
  pub guards : List Guard
  pub raw : List ℕ

pub data Step (s : System) : System → Type 0 where
  allocates :
      (n : Manager) (h : ℕ)
      → allocate_slot s.manager ≡ (n, ok h)
      → Step s (record s { manager = n; guards = create_slot_guard h ∷ s.guards })
  shares :
      (i : ℕ) (g shared : Guard) (n : Manager)
      → get_elem? s.guards i ≡ some g
      → length s.guards + length s.raw + 1 < 2 ^ 32
      → share s.manager g ≡ (n, some shared)
      → Step s (record s { manager = n; guards = shared ∷ s.guards })
  resets :
      (i : ℕ) (g : Guard)
      → get_elem? s.guards i ≡ some g
      → Step s (record s {
        manager = (reset s.manager g).0;
        guards = set s.guards i (reset s.manager g).1;
      })
  releases :
      (i h : ℕ) (g : Guard)
      → get_elem? s.guards i ≡ some g
      → (release g).1 ≡ ok h
      → Step s (record s { guards = set s.guards i (release g).0; raw = h ∷ s.raw })
  moves :
      (i : ℕ) (g : Guard)
      → get_elem? s.guards i ≡ some g
      → Step s (record s { guards = (move_construct g).0 ∷ set s.guards i (move_construct g).1 })
  assigns :
      (i j : ℕ) (g other : Guard)
      → get_elem? s.guards i ≡ some g
      → get_elem? s.guards j ≡ some other
      → i ≢ j
      → Step s (record s {
        manager = (move_assign s.manager g other).0;
        guards =
            set
              (set s.guards i (move_assign s.manager g other).1)
              j
              (move_assign s.manager g other).2;
      })
  -- The owner of a handle that `release` returned gives it back by `release_slot`.
  frees :
      (before after : List ℕ) (h : ℕ)
      → s.raw ≡ before ++ h ∷ after
      → Step s (record s { manager = (release_slot s.manager h).0; raw = before ++ after })

-- The count of each slot is the number of its owners.
pub record IsBalanced (s : System) : Type 0 where
  pub valid : IsValid s.manager
  pub counted : (h : ℕ) → get_reference_count s.manager h ≡ owners h s.guards + occurrences h s.raw

-- A guard that holds a slot is one of its owners.
pub guard_counted :
    (s : System) (i : ℕ) (g : Guard)
    → IsBalanced s
    → get_elem? s.guards i ≡ some g
    → g.has_manager ≡ true
    → 0 < get_reference_count s.manager g.handle
guard_counted s i g b e held =
    ground (arith, b.counted g.handle, holds-le-owners g.handle i g s.guards e)

shares-IsBalanced :
    (s : System) (i : ℕ) (g shared : Guard) (n : Manager)
    → get_elem? s.guards i ≡ some g
    → length s.guards + length s.raw + 1 < 2 ^ 32
    → share s.manager g ≡ (n, some shared)
    → IsBalanced s
    → IsBalanced (record s { manager = n; guards = shared ∷ s.guards })
unfolding owners
shares-IsBalanced s i g shared n at room e b =
    let a =
      share-Adds s.manager n g shared b.valid (guard_counted s i g b at)
        (omega
          (arith, b.counted g.handle, owners-le g.handle s.guards, occurrences-le g.handle s.raw))
        e in
    record { valid = a.valid; counted = λ h. omega (arith, a.added h, b.counted h) }

resets-IsBalanced :
    (s : System) (i : ℕ) (g : Guard)
    → get_elem? s.guards i ≡ some g
    → IsBalanced s
    → IsBalanced (record s {
      manager = (reset s.manager g).0;
      guards = set s.guards i (reset s.manager g).1;
    })
resets-IsBalanced s i g at b =
    let d = reset-Drops s.manager g b.valid (guard_counted s i g b at) in
    record {
      valid = d.valid;
      counted = λ h. ground (
        arith,
        d.dropped h,
        d.emptied,
        b.counted h,
        owners-set h i g (reset s.manager g).1 s.guards at,
      );
    }

assigns-IsBalanced :
    (s : System) (i j : ℕ) (g other : Guard)
    → get_elem? s.guards i ≡ some g
    → get_elem? s.guards j ≡ some other
    → i ≢ j
    → IsBalanced s
    → IsBalanced (record s {
      manager = (move_assign s.manager g other).0;
      guards =
          set
            (set s.guards i (move_assign s.manager g other).1)
            j
            (move_assign s.manager g other).2;
    })
unfolding move_assign
assigns-IsBalanced s i j g other at at' ne b =
    let d = reset-Drops s.manager g b.valid (guard_counted s i g b at) in
    record {
      valid = d.valid;
      counted = λ h. ground (
        arith,
        d.dropped h,
        b.counted h,
        owners-set h i g other s.guards at,
        owners-set h j other (record other { has_manager = false }) (set s.guards i other)
            (get_elem?-set i j other s.guards ne ∙ at'),
      );
    }

frees-IsBalanced :
    (s : System) (before after : List ℕ) (h : ℕ)
    → s.raw ≡ before ++ h ∷ after
    → IsBalanced s
    → IsBalanced (record s { manager = (release_slot s.manager h).0; raw = before ++ after })
unfolding occurrences
frees-IsBalanced s before after h e b =
    let split = λ (j : ℕ). ap (occurrences j) e ∙ occurrences-append j before (h ∷ after) in
    let used : 0 < get_reference_count s.manager h = ground (arith, b.counted h, split h) in
    let u = release_slot-Updates s.manager h b.valid used in
    record {
      valid = u.valid;
      counted = λ j. ground (
        arith,
        u.written j,
        b.counted j,
        b.counted h,
        split j,
        used,
        occurrences-append j before after,
      );
    }

-- The count of each slot stays the number of its owners: no operation on guards leaks a reference
-- or gives one back twice.
pub Step-IsBalanced : {s t : System} → Step s t → IsBalanced s → IsBalanced t
unfolding owners occurrences create_slot_guard release move_construct
Step-IsBalanced {s} (allocates n h e) b =
    let (lt, free, before, u) = allocate_slot_ok s.manager n h b.valid e in
    record { valid = u.valid; counted = λ j. ground (arith, u.written j, b.counted j) }
Step-IsBalanced {s} (shares i g shared n at room e) b = shares-IsBalanced s i g shared n at room e b
Step-IsBalanced {s} (resets i g at) b = resets-IsBalanced s i g at b
Step-IsBalanced {s} (releases i h g at e) b = record {
  valid = b.valid;
  counted = λ j. ground (arith, b.counted j, owners-set j i g (release g).0 s.guards at);
}
Step-IsBalanced {s} (moves i g at) b = record {
  valid = b.valid;
  counted = λ j. ground (arith, b.counted j, owners-set j i g (move_construct g).1 s.guards at);
}
Step-IsBalanced {s} (assigns i j g other at at' ne) b = assigns-IsBalanced s i j g other at at' ne b
Step-IsBalanced {s} (frees before after h e) b = frees-IsBalanced s before after h e b
