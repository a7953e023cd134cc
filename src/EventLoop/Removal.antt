-- ===== src/EventLoop/Removal.antt =====
-- What removals of events do to a loop that processes events, in
-- libkngin/detail/core/event/event_loop.cpp and in the reactor.
use libkngin.Base.{
  ℕ, ◌≡◌, refl, sym, ap, ◌∙◌, Bool, true, false, List, [], ◌∷◌, ◌++◌, arith, ◌==◌, ◌&&◌,
  if◌then◌else◌, append_assoc, append-nil,
}
use libkngin.Base.Result.{Result, ok, throw, system_error}
use libkngin.Base.Run.{Run, done, fault, out_of_fuel, ◌>>=◌}
use mathlib.Core.Path.{fun_ext}
use libkngin.EventLoop.{Loop, clear_from, remove_event}
use libkngin.EventLoop.Slots.{clear_all}

-- Which events are registered once those of a list have been removed.
abbrev pub drop_all : List ℕ → (ℕ → Bool) → ℕ → Bool
drop_all [] w = w
drop_all (e ∷ es) w = drop_all es (λ x. if x == e then false else w x)

-- Whether each event of a list is registered when its turn to be removed comes.
abbrev pub can_remove : (ℕ → Bool) → List ℕ → Bool
can_remove w [] = true
can_remove w (e ∷ es) = w e && can_remove (λ x. if x == e then false else w x) es

pub can_remove-append :
    (w : ℕ → Bool) (xs ys : List ℕ)
    → can_remove w (xs ++ ys) ≡ (can_remove w xs && can_remove (drop_all xs w) ys)
can_remove-append w [] ys = refl
can_remove-append w (x ∷ xs) ys =
    ground (arith, can_remove-append (λ y. if y == x then false else w y) xs ys)

pub drop_all-append :
    (w : ℕ → Bool) (xs ys : List ℕ) → drop_all (xs ++ ys) w ≡ drop_all ys (drop_all xs w)
drop_all-append w [] ys = refl
drop_all-append w (x ∷ xs) ys = drop_all-append (λ y. if y == x then false else w y) xs ys

pub bind_assoc :
    {A B C : Type 0} (m : Run A) (f : A → Run B) (g : B → Run C)
    → (m >>= f) >>= g ≡ m >>= (λ a. f a >>= g)
bind_assoc (done a) f g = refl
bind_assoc fault f g = refl
bind_assoc out_of_fuel f g = refl

module _ {E : Type 0} where
  -- `remove_event` for each event of a list, where the system takes each out.
  abbrev pub remove_all : List ℕ → Loop E → Run (Loop E)
  remove_all [] l = done l
  remove_all (e ∷ es) l = remove_event true e l >>= (λ r. remove_all es r.1)

  pub remove_all-append :
      (xs ys : List ℕ) (l : Loop E) → remove_all (xs ++ ys) l ≡ remove_all xs l >>= remove_all ys
  remove_all-append [] ys l = refl
  remove_all-append (x ∷ xs) ys l =
      ap (λ (f : Result (Unit {0}) × Loop E → Run (Loop E)). remove_event true x l >>= f)
        (fun_ext (λ r. remove_all-append xs ys r.1))
      ∙ sym (bind_assoc (remove_event true x l) (λ r. remove_all xs r.1) (remove_all ys))

  -- The loop without an event.
  abbrev without : ℕ → Loop E → Loop E
  without e l = record l {
    actived = clear_from 1 e l.actived;
    registed = λ x. if x == e then false else l.registed x;
    removed = l.removed ++ e ∷ [];
  }

  -- `remove_event` in the slot `n`.
  abbrev removing : Bool → ℕ → ℕ → Loop E → Run (Result (Unit {0}) × Loop E)
  removing deleted n e l =
      if l.registed e
      then done (
        if deleted then ok tt else throw system_error,
        record l {
          actived = if n == 0 then l.actived else clear_from n e l.actived;
          registed = λ x. if x == e then false else l.registed x;
          removed = l.removed ++ e ∷ [];
        },
      )
      else fault

  pub remove_event-busy :
      (deleted : Bool) (e : ℕ) (l : Loop E)
      → l.processing ≡ 1
      → (remove_event deleted e l >>= (λ r. done r.1))
        ≡ (if l.registed e then done (without e l) else fault)
  unfolding remove_event
  remove_event-busy deleted e l p =
      ap (λ (n : ℕ). removing deleted n e l >>= (λ r. done r.1)) p ∙ taken (l.registed e)
    where
      outcome : Result (Unit {0}) × Loop E
      outcome = (if deleted then ok tt else throw system_error, without e l)

      taken :
          (b : Bool)
          → ((if b then done outcome else fault) >>= (λ r. done r.1))
            ≡ (if b then done (without e l) else fault)
      taken true = refl
      taken false = refl

  -- The loop without the events of a list.
  abbrev pub without_all : List ℕ → Loop E → Loop E
  without_all es l = record l {
    actived = clear_all es l.actived;
    registed = drop_all es l.registed;
    removed = l.removed ++ es;
  }

  pub remove_all-busy :
      (es : List ℕ) (l : Loop E)
      → l.processing ≡ 1
      → remove_all es l ≡ (if can_remove l.registed es then done (without_all es l) else fault)
  remove_all-busy [] l p =
      ap (λ (r : List ℕ). done (record l { removed = r })) (sym (append-nil l.removed))
  remove_all-busy (e ∷ es) l p =
      sym (bind_assoc (remove_event true e l) (λ r. done r.1) (remove_all es))
      ∙ ap (λ (m : Run (Loop E)). m >>= remove_all es) (remove_event-busy true e l p)
      ∙ by_turn (remove_all-busy es (without e l) p) (l.registed e)
    where
      again : Bool
      again = can_remove (λ x. if x == e then false else l.registed x) es

      by_turn :
          remove_all es (without e l)
            ≡ (if again then done (without_all es (without e l)) else fault)
          → (b : Bool)
          → ((if b then done (without e l) else fault) >>= remove_all es)
            ≡ (if b && again then done (without_all (e ∷ es) l) else fault)
      by_turn rest true =
          rest
          ∙ ap
              (λ (r : List ℕ).
                if again then done (record (without_all (e ∷ es) l) { removed = r }) else fault)
              (append_assoc l.removed (e ∷ []) es)
      by_turn rest false = refl
