-- ===== src/EventLoop/Slots.antt =====
-- The slots of active events of libkngin/detail/core/event/event_loop.cpp after removals of events.
use libkngin.Base.{
  ℕ, zero, suc, ◌+◌, ◌≡◌, refl, ap, ◌∙◌, Bool, true, false, List, [], ◌∷◌, Option, none, some,
  arith, ◌==◌, ◌||◌, ltb, mem, get_elem?, if◌then◌else◌,
}
use libkngin.EventLoop.{Slot, clear_from}

-- A slot once the events of a list have been removed.
abbrev pub mask_ev : List ℕ → Option ℕ → Option ℕ
mask_ev dead none = none
mask_ev dead (some e) = if mem e dead then none else some e

abbrev pub mask : List ℕ → Option Slot → Option Slot
mask dead none = none
mask dead (some s) = some (record s { ev = mask_ev dead s.ev })

abbrev clear_one : ℕ → Option Slot → Option Slot
clear_one ev none = none
clear_one ev (some s) =
    some (elim s.ev [ none ↦ s | some e ↦ if e == ev then record s { ev = none } else s ])

clear_one-mask_ev :
    (ev : ℕ) (dead : List ℕ) (o : Option ℕ) (k : ℕ)
    → clear_one ev (some (record { ev = mask_ev dead o; events = k }))
      ≡ some (record { ev = mask_ev (ev ∷ dead) o; events = k })
clear_one-mask_ev ev dead none k = refl
clear_one-mask_ev ev dead (some e) k = of_dead (mem e dead)
  where
    gone :
        (c : Bool)
        → ◌≡◌ {A = Option Slot}
            (some (record { ev = none; events = k }))
            (some (record { ev = if c || true then none else some e; events = k }))
    gone true = refl
    gone false = refl

    live :
        (c : Bool)
        → ◌≡◌ {A = Option Slot}
            (some
              (if c then record { ev = none; events = k } else record { ev = some e; events = k }))
            (some (record { ev = if c || false then none else some e; events = k }))
    live true = refl
    live false = refl

    of_dead :
        (b : Bool)
        → clear_one ev (some (record { ev = if b then none else some e; events = k }))
          ≡ some (record { ev = if (e == ev) || b then none else some e; events = k })
    of_dead true = gone (e == ev)
    of_dead false = live (e == ev)

clear_one-mask :
    (ev : ℕ) (dead : List ℕ) (o : Option Slot) → clear_one ev (mask dead o) ≡ mask (ev ∷ dead) o
clear_one-mask ev dead none = refl
clear_one-mask ev dead (some s) = clear_one-mask_ev ev dead s.ev s.events

-- Every slot from `start` on is cleared, and none before.
get_elem?-clear_from :
    (start ev : ℕ) (slots : List Slot) (i : ℕ)
    → get_elem? (clear_from start ev slots) i
      ≡ (if ltb i start then get_elem? slots i else clear_one ev (get_elem? slots i))
unfolding clear_from
get_elem?-clear_from zero ev [] i = ground arith
get_elem?-clear_from (suc start) ev [] i = ground arith
get_elem?-clear_from (suc start) ev (s ∷ slots) zero = ground arith
get_elem?-clear_from (suc start) ev (s ∷ slots) (suc i) =
    ground (arith, get_elem?-clear_from start ev slots i)
get_elem?-clear_from zero ev (s ∷ slots) zero = refl
get_elem?-clear_from zero ev (s ∷ slots) (suc i) =
    ground (arith, get_elem?-clear_from zero ev slots i)

-- The events of a list, in front of those that are dead already.
abbrev pub bury : List ℕ → List ℕ → List ℕ
bury [] dead = dead
bury (e ∷ es) dead = bury es (e ∷ dead)

-- The slots once the events of a list have been removed, one after the other.
abbrev pub clear_all : List ℕ → List Slot → List Slot
clear_all [] slots = slots
clear_all (e ∷ es) slots = clear_all es (clear_from 1 e slots)

-- The slots from `i` on are those of a list, less the events that are dead.
abbrev pub Sees : ℕ → List ℕ → List Slot → List Slot → Type 0
Sees i dead ss slots = (j : ℕ) → get_elem? slots (i + j) ≡ mask dead (get_elem? ss j)

pub clear_all-Sees :
    (es : List ℕ) (i : ℕ) (dead : List ℕ) (ss slots : List Slot)
    → Sees (suc i) dead ss slots
    → Sees (suc i) (bury es dead) ss (clear_all es slots)
clear_all-Sees [] i dead ss slots sees = sees
clear_all-Sees (e ∷ es) i dead ss slots sees =
    clear_all-Sees es i (e ∷ dead) ss (clear_from 1 e slots) (λ j.
      let behind : ltb (suc i + j) 1 ≡ false = ground arith in
      get_elem?-clear_from 1 e slots (suc i + j)
      ∙ ap
          (λ (b : Bool).
            if b then get_elem? slots (suc i + j) else clear_one e (get_elem? slots (suc i + j)))
          behind
      ∙ ap (clear_one e) (sees j)
      ∙ clear_one-mask e dead (get_elem? ss j))

-- A slot stays if its event is not in the list.
pub clear_all-other :
    (es : List ℕ) (i e k : ℕ) (slots : List Slot)
    → mem e es ≡ false
    → get_elem? slots i ≡ some (record { ev = some e; events = k })
    → get_elem? (clear_all es slots) i ≡ some (record { ev = some e; events = k })
clear_all-other [] i e k slots out at = at
clear_all-other (x ∷ es) i e k slots out at =
    clear_all-other es i e k (clear_from 1 x slots) (ground arith)
      (get_elem?-clear_from 1 x slots i ∙ stays (ltb i 1))
  where
    apart : (e == x) ≡ false
    apart = ground arith

    stays :
        (b : Bool)
        → (if b then get_elem? slots i else clear_one x (get_elem? slots i))
          ≡ some (record { ev = some e; events = k })
    stays true = at
    stays false =
        ap (clear_one x) at
        ∙ ap
            (λ (b : Bool).
              some (
                if b then record { ev = none; events = k } else record { ev = some e; events = k }))
            apart
