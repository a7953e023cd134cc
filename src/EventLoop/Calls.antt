-- ===== src/EventLoop/Calls.antt =====
-- What a call of a handler by `process_events` of libkngin/detail/core/event/event_loop.cpp does.
use libkngin.Base.{
  ℕ, ◌≡◌, refl, sym, ap, ◌∙◌, Bool, true, false, not, List, [], ◌∷◌, ◌++◌, Option, none, some, mem,
  get_elem?, if◌then◌else◌,
}
use libkngin.Base.Run.{Run, done, fault, ◌>>=◌}
use libkngin.EventLoop.{Slot, Loop, remove_event, process_slot}
use libkngin.EventLoop.Slots.{mask_ev, bury, clear_all-other}
use libkngin.EventLoop.Removal.{
  remove_all, remove_all-busy, bind_assoc, remove_all-append, can_remove, without_all,
  remove_event-busy,
}

-- What a handler does: the events that it removes, whether it then throws, and what it notes.
module _ (gone : ℕ → List ℕ) (threw : ℕ → Bool) where
  -- The events that are removed when the handler of `e` has been called.
  abbrev pub dropped : ℕ → List ℕ
  dropped e = gone e ++ (if threw e then e ∷ [] else [])

  -- The events whose handlers are called, with their types, if those of `dead` are removed already.
  abbrev pub called : List ℕ → List Slot → List (ℕ × ℕ)
  called dead [] = []
  called dead (s ∷ ss) = elim (mask_ev dead s.ev) [
    | none ↦ called dead ss
    | some e ↦ (e, s.events) ∷ called (bury (dropped e) dead) ss
  ]

  abbrev pub all_dropped : List (ℕ × ℕ) → List ℕ
  all_dropped [] = []
  all_dropped (c ∷ cs) = dropped c.0 ++ all_dropped cs

-- What a list of calls notes.
abbrev pub noted {ℓ} : {E : Type ℓ} → (ℕ → ℕ → E → E) → List (ℕ × ℕ) → E → E
noted note [] x = x
noted note (c ∷ cs) x = noted note cs (note c.0 c.1 x)

-- Handlers that note what they are called for, remove events, which the system takes out, and may then
-- throw. One that throws has not removed its own event.
module _ {E : Type 0} (run_task : ℕ → Loop E → Loop E)
    (on_events : ℕ → ℕ → Loop E → Run (Bool × Loop E)) (deletes : ℕ → Loop E → Bool)
    (gone : ℕ → List ℕ) (threw : ℕ → Bool) (note : ℕ → ℕ → E → E)
    (behaves : (e k : ℕ) (l : Loop E)
      → on_events e k l ≡ (
          remove_all (gone e) (record l { rest = note e k l.rest }) >>= (λ l'. done (threw e, l'))))
    (keeps_own : (e : ℕ) → threw e ≡ true → mem e (gone e) ≡ false) where
  module _ (i : ℕ) (l : Loop E) where
    -- `process_slot`, by the slot that it finds, and then by what the handler gives.
    abbrev answered : Bool × Loop E → Run (Loop E)
    answered r =
        let (bad, l') = r in
        if not bad then done l' else elim (get_elem? l'.actived i) [
          | none ↦ fault
          | some s' ↦ elim s'.ev [
            | none ↦ fault
            | some e ↦ remove_event (deletes e l') e l' >>= (λ r. done r.1)
          ]
        ]

    abbrev found : Option Slot → Run (Loop E)
    found o = elim o [
      | none ↦ fault
      | some s ↦ elim s.ev [ none ↦ done l | some e ↦ on_events e s.events l >>= answered ]
    ]

    process_slot-found : process_slot run_task on_events deletes i l ≡ found (get_elem? l.actived i)
    unfolding process_slot
    process_slot-found = refl

    pub process_slot-none :
        (k : ℕ)
        → get_elem? l.actived i ≡ some (record { ev = none; events = k })
        → process_slot run_task on_events deletes i l ≡ done l
    process_slot-none k at = process_slot-found ∙ ap found at

    module _ (e k : ℕ) (p : l.processing ≡ 1)
        (at : get_elem? l.actived i ≡ some (record { ev = some e; events = k })) where
      abbrev noting : Loop E
      noting = record l { rest = note e k l.rest }

      abbrev gone_through : Loop E
      gone_through = without_all (gone e) noting

      answered_lem :
          (b : Bool)
          → threw e ≡ b
          → answered (b, gone_through) ≡ remove_all (if b then e ∷ [] else []) gone_through
      answered_lem false t = refl
      answered_lem true t =
          ap
            (λ (o : Option Slot). elim o [
              | none ↦ fault
              | some s' ↦ elim s'.ev [
                | none ↦ fault
                | some x ↦ remove_event (deletes x gone_through) x gone_through >>= (λ r. done r.1)
              ]
            ])
            (clear_all-other (gone e) i e k l.actived (keeps_own e t) at)
          ∙ remove_event-busy (deletes e gone_through) e gone_through p
          ∙ sym (remove_event-busy true e gone_through p)

      -- The handler's removals, and what follows them.
      called_lem :
          (b : Bool)
          → can_remove l.registed (gone e) ≡ b
          → (remove_all (gone e) noting >>= (λ l'. answered (threw e, l')))
            ≡ (remove_all (gone e) noting >>= remove_all (if threw e then e ∷ [] else []))
      called_lem true c =
          let m =
            remove_all-busy (gone e) noting p
            ∙ ap (λ (b : Bool). if b then done gone_through else fault) c in
          ap (λ (m : Run (Loop E)). m >>= (λ l'. answered (threw e, l'))) m
          ∙ answered_lem (threw e) refl
          ∙ ap (λ (m : Run (Loop E)). m >>= remove_all (if threw e then e ∷ [] else [])) (sym m)
      called_lem false c =
          let m =
            remove_all-busy (gone e) noting p
            ∙ ap (λ (b : Bool). if b then done gone_through else fault) c in
          ap (λ (m : Run (Loop E)). m >>= (λ l'. answered (threw e, l'))) m
          ∙ ap (λ (m : Run (Loop E)). m >>= remove_all (if threw e then e ∷ [] else [])) (sym m)

      pub process_slot-some : process_slot run_task on_events deletes i l ≡ (
          if can_remove l.registed (dropped gone threw e)
          then done (without_all (dropped gone threw e) noting)
          else fault)
      process_slot-some =
          process_slot-found
          ∙ ap found at
          ∙ ap (λ (m : Run (Bool × Loop E)). m >>= answered) (behaves e k l)
          ∙ bind_assoc (remove_all (gone e) noting) (λ l'. done (threw e, l')) answered
          ∙ called_lem (can_remove l.registed (gone e)) refl
          ∙ sym (remove_all-append (gone e) (if threw e then e ∷ [] else []) noting)
          ∙ remove_all-busy (dropped gone threw e) noting p
