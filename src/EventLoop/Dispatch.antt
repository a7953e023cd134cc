-- ===== src/EventLoop/Dispatch.antt =====
-- The handlers that `process_events` of libkngin/detail/core/event/event_loop.cpp calls.
use libkngin.Base.{
  ℕ, suc, ◌+◌, ◌≡◌, refl, sym, ap, ◌∙◌, Bool, true, false, ◌&&◌, List, [], ◌∷◌, ◌++◌, Option, none,
  some, arith, mem, get_elem?, if◌then◌else◌, append_assoc, append-nil, length,
}
use libkngin.Base.Run.{Run, done, fault, ◌>>=◌}
use libkngin.EventLoop.{Slot, Loop, process_slot, process_slots, process_events}
use libkngin.EventLoop.Slots.{mask, mask_ev, bury, Sees, clear_all-Sees}
use libkngin.EventLoop.Removal.{
  remove_all, can_remove, can_remove-append, drop_all, drop_all-append, without_all,
}
use libkngin.EventLoop.Calls.{
  dropped, called, all_dropped, noted, process_slot-none, process_slot-some,
}

-- Handlers that note what they are called for, remove events, which the system takes out, and may then
-- throw. One that throws has not removed its own event.
module _ {E : Type 0} (run_task : ℕ → Loop E → Loop E)
    (on_events : ℕ → ℕ → Loop E → Run (Bool × Loop E)) (deletes : ℕ → Loop E → Bool)
    (gone : ℕ → List ℕ) (threw : ℕ → Bool) (note : ℕ → ℕ → E → E)
    (behaves : (e k : ℕ) (l : Loop E)
      → on_events e k l ≡ (
          remove_all (gone e) (record l { rest = note e k l.rest }) >>= (λ l'. done (threw e, l'))))
    (keeps_own : (e : ℕ) → threw e ≡ true → mem e (gone e) ≡ false) where
  -- The loop once the handlers of a list of calls have run.
  abbrev after : List (ℕ × ℕ) → List Slot → Loop E → Loop E
  after cs acts l = record l {
    rest = noted note cs l.rest;
    actived = acts;
    registed = drop_all (all_dropped gone threw cs) l.registed;
    removed = l.removed ++ all_dropped gone threw cs;
  }

  abbrev Outcome : ℕ → ℕ → Loop E → List (ℕ × ℕ) → Type 0
  Outcome n i l cs =
      (acts : List Slot) × (process_slots run_task on_events deletes n i l ≡ (
        if can_remove l.registed (all_dropped gone threw cs)
        then done (after cs acts l)
        else fault))

  -- The rest of the loop behind a slot.
  abbrev go_on : ℕ → ℕ → Loop E → Run (Loop E)
  go_on n j x =
      let rest = process_slots run_task on_events deletes n j x in if x.stop then done x else rest

  process_slots-step :
      (n i : ℕ) (l : Loop E) (m : Run (Loop E))
      → process_slot run_task on_events deletes i l ≡ m
      → process_slots run_task on_events deletes (suc n) i l ≡ m >>= go_on n (suc i)
  unfolding process_slots
  process_slots-step n i l m e =
      ap (λ (m : Run (Loop E)). m >>= go_on n (i + 1)) e
      ∙ ap (λ (j : ℕ). m >>= go_on n j) (omega arith)

  go_on-open :
      (n j : ℕ) (l : Loop E)
      → l.stop ≡ false
      → go_on n j l ≡ process_slots run_task on_events deletes n j l
  go_on-open n j l s =
      ap (λ (b : Bool). if b then done l else process_slots run_task on_events deletes n j l) s

  slots_cons :
      (x : Slot) (ss : List Slot) (dead : List ℕ) (i : ℕ) (l : Loop E)
      → l.stop ≡ false
      → l.processing ≡ 1
      → Sees i dead (x ∷ ss) l.actived
      → ((dead' : List ℕ) (l' : Loop E)
          → l'.stop ≡ false
          → l'.processing ≡ 1
          → Sees (suc i) dead' ss l'.actived
          → Outcome (length ss) (suc i) l' (called gone threw dead' ss))
      → Outcome (suc (length ss)) i l (called gone threw dead (x ∷ ss))
  slots_cons x ss dead i l s p sees ih = of_ev (mask_ev dead x.ev) refl
    where
      behind : Sees (suc i) dead ss l.actived
      behind j = ap (get_elem? l.actived) (omega arith) ∙ sees (suc j)

      here :
          (o : Option ℕ)
          → mask_ev dead x.ev ≡ o
          → get_elem? l.actived i ≡ some (record { ev = o; events = x.events })
      here o e =
          ap (get_elem? l.actived) (omega arith)
          ∙ sees 0
          ∙ ap (λ (q : Option ℕ). some (record { ev = q; events = x.events })) e

      -- The rest of the slots behind a call, by whether its removals are possible.
      behind_call :
          (e : ℕ)
          → let ds = dropped gone threw e in
            let l' : Loop E = without_all ds (record l { rest = note e x.events l.rest }) in
            let cs = called gone threw (bury ds dead) ss in
            (acts : List Slot)
            → process_slots run_task on_events deletes (length ss) (suc i) l' ≡ (
                if can_remove l'.registed (all_dropped gone threw cs)
                then done (after cs acts l')
                else fault)
            → (b : Bool)
            → ((if b then done l' else fault) >>= go_on (length ss) (suc i)) ≡ (
                if b && can_remove (drop_all ds l.registed) (all_dropped gone threw cs)
                then done (after ((e, x.events) ∷ cs) acts l)
                else fault)
      behind_call e acts r false = refl
      behind_call e acts r true =
          let ds = dropped gone threw e in
          let l' : Loop E = without_all ds (record l { rest = note e x.events l.rest }) in
          let cs = called gone threw (bury ds dead) ss in
          let more = all_dropped gone threw cs in
          go_on-open (length ss) (suc i) l' s
          ∙ r
          ∙ ap
              (λ (y : List ℕ).
                if can_remove (drop_all ds l.registed) more
                then done (record (after cs acts l') { removed = y })
                else fault)
              (append_assoc l.removed ds more)
          ∙ ap
              (λ (w : ℕ → Bool).
                if can_remove (drop_all ds l.registed) more
                then done (record (after ((e, x.events) ∷ cs) acts l) { registed = w })
                else fault)
              (sym (drop_all-append l.registed ds more))

      of_ev :
          (o : Option ℕ)
          → mask_ev dead x.ev ≡ o
          → Outcome (suc (length ss)) i l (elim o [
            | none ↦ called gone threw dead ss
            | some e ↦ (e, x.events) ∷ called gone threw (bury (dropped gone threw e) dead) ss
          ])
      of_ev none e =
          let (acts, r) = ih dead l s p behind in
          (
            acts,
            process_slots-step (length ss) i l (done l) (
                  process_slot-none run_task on_events deletes gone threw note behaves keeps_own i l
                    x.events (here none e))
                ∙ go_on-open (length ss) (suc i) l s
                ∙ r,
          )
      of_ev (some e) q =
          let ds = dropped gone threw e in
          let l' : Loop E = without_all ds (record l { rest = note e x.events l.rest }) in
          let cs = called gone threw (bury ds dead) ss in
          let (acts, r) = ih (bury ds dead) l' s p (clear_all-Sees ds i dead ss l.actived behind) in
          (
            acts,
            process_slots-step (length ss) i l (if can_remove l.registed ds then done l' else fault)
                  (process_slot-some run_task on_events deletes gone threw note behaves keeps_own i
                    l e x.events p (here (some e) q))
                ∙ behind_call e acts r (can_remove l.registed ds)
                ∙ ap (λ (b : Bool). if b then done (after ((e, x.events) ∷ cs) acts l) else fault)
                    (sym (can_remove-append l.registed ds (all_dropped gone threw cs))),
          )

  slots_lem :
      (ss : List Slot) (dead : List ℕ) (i : ℕ) (l : Loop E)
      → l.stop ≡ false
      → l.processing ≡ 1
      → Sees i dead ss l.actived
      → Outcome (length ss) i l (called gone threw dead ss)
  unfolding process_slots
  slots_lem [] dead i l s p sees =
      (l.actived, ap (λ (r : List ℕ). done (record l { removed = r })) (sym (append-nil l.removed)))
  slots_lem (x ∷ ss) dead i l s p sees =
      slots_cons x ss dead i l s p sees (λ dead' l'. slots_lem ss dead' (suc i) l')

  unmasked : (ss : List Slot) → Sees 0 [] ss ss
  unmasked ss j = ap (get_elem? ss) (omega arith) ∙ same (get_elem? ss j)
    where
      same_ev : (o : Option ℕ) → o ≡ mask_ev [] o
      same_ev none = refl
      same_ev (some e) = refl

      same : (o : Option Slot) → o ≡ mask [] o
      same none = refl
      same (some s) =
          ap (λ (o : Option ℕ). some (record { ev = o; events = s.events })) (same_ev s.ev)

  -- Where no handler stops the loop or touches it but by removals of events, which the system takes
  -- out, and none throws that has removed its own event: `process_events` calls the handler of each
  -- active event, in their order and with its types, unless a handler before has removed the event, and
  -- removes the events whose handlers throw, whatever the system answers to that. If each event that is
  -- to be removed is registered when its turn comes, it returns, with these events removed from the
  -- reactor and no active event left; otherwise the assertion of the reactor fails.
  pub process_events_lem :
      (l : Loop E)
      → l.stop ≡ false
      → let cs = called gone threw [] l.actived in
        let ds = all_dropped gone threw cs in
        process_events run_task on_events deletes l ≡ (
          if can_remove l.registed ds
          then done (record l {
            rest = noted note cs l.rest;
            actived = [];
            processing = 0;
            registed = drop_all ds l.registed;
            removed = l.removed ++ ds;
          })
          else fault)
  unfolding process_events
  process_events_lem l s =
      let cs = called gone threw [] l.actived in
      let start : Loop E = record l { processing = 1 } in
      let (acts, r) = slots_lem l.actived [] 0 start s refl (unmasked l.actived) in
      ap (λ (m : Run (Loop E)). m >>= (λ l'. done (record l' { processing = 0; actived = [] }))) r
      ∙ ended (after cs acts start) (can_remove l.registed (all_dropped gone threw cs))
    where
      ended :
          (x : Loop E) (b : Bool)
          → ((if b then done x else fault)
              >>= (λ l'. done (record l' { processing = 0; actived = [] })))
            ≡ (if b then done (record x { processing = 0; actived = [] }) else fault)
      ended x true = refl
      ended x false = refl
