-- ===== src/Listener/Turns.antt =====
-- One turn of the loop of `on_read` in libkngin/detail/net/impl/posix_listener.cpp.
use libkngin.Base.{
  ℕ, ◌≡◌, ◌≢◌, refl, sym, ap, ◌∙◌, Bool, true, false, ◌||◌, List, [], ◌∷◌, ◌++◌, inl, inr, ◌⊎◌,
  arith, ◌==◌, if◌then◌else◌, Bool-cases, ==_iff, append_assoc, append-nil,
}
use libkngin.Base.Int.{ℤ}
use libkngin.Base.Run.{done, fault, out_of_fuel}
use libkngin.Socket.{Socket, Answer, returned, refused, accept_ec, close_ec}
use libkngin.Socket
use libkngin.Tcp.World.{Errno, success, eintr, eagain, econnreset, epipe, end_of_file, other}
use libkngin.Listener.{
  Listener, Rejection, awake, invalid, new_socket, reject, accepted, accept_one, accept_loop,
  on_read,
}

-- Answers that neither end the loop nor say that no descriptor is left.
abbrev pub IsOrdinary : ℕ → ℕ → List (Answer (ℤ × Bool)) → Type 0
IsOrdinary enfile emfile [] = Unit {0}
IsOrdinary enfile emfile (returned r ∷ more) = IsOrdinary enfile emfile more
IsOrdinary enfile emfile (refused e ∷ more) =
    (e ≢ success)
    × (e ≢ eagain)
    × (e ≢ other enfile)
    × (e ≢ other emfile)
    × IsOrdinary enfile emfile more

-- The sockets of the connections among the answers whose address is of a known family.
abbrev pub connections : Socket → List (Answer (ℤ × Bool)) → List Socket
connections l [] = []
connections l (returned (h, true) ∷ more) =
    record { handle = h; shut = false; ipv6 = l.ipv6 } ∷ connections l more
connections l (returned (h, false) ∷ more) = connections l more
connections l (refused e ∷ more) = connections l more

-- `accept` of a socket that is open.
module _ (unknown : Errno) (l : Socket) (opened : Socket.closed l ≡ false) where
  pub accept_ec-known :
      (h : ℤ)
      → accept_ec unknown l new_socket (returned (h, true))
        ≡ done (success, record { handle = h; shut = false; ipv6 = l.ipv6 })
  unfolding accept_ec
  accept_ec-known h = rw (opened, accept_ec) refl

  pub accept_ec-unknown :
      (h : ℤ) → accept_ec unknown l new_socket (returned (h, false)) ≡ done (unknown, new_socket)
  unfolding accept_ec
  accept_ec-unknown h = rw (opened, accept_ec) refl

  pub accept_ec-refused :
      (e : Errno) → accept_ec unknown l new_socket (refused e) ≡ done (e, new_socket)
  unfolding accept_ec
  accept_ec-refused e = rw (opened, accept_ec) refl

abbrev pub hand : List Socket → Listener → Listener
hand ss l = record l { handed = l.handed ++ ss }

module _ (enfile emfile eproto : ℕ) (handler : Socket → Listener → Listener) (rejection : Rejection)
    (quiet : (s : Socket) (l : Listener) → handler s l ≡ l) where
  pub accepted-success :
      (s : Socket) (l : Listener)
      → accepted enfile emfile eproto handler rejection l (success, s)
        ≡ done (true, hand (s ∷ []) l)
  unfolding accepted
  accepted-success s l = ap (λ (x : Listener). done (true, x)) (quiet s (hand (s ∷ []) l))

  pub accepted-ignored :
      (e : Errno) (s : Socket) (l : Listener)
      → e ≢ success
      → e ≢ eagain
      → e ≢ other enfile
      → e ≢ other emfile
      → accepted enfile emfile eproto handler rejection l (e, s) ≡ done (true, l)
  unfolding accepted
  accepted-ignored success s l a b c d = absurd (a refl)
  accepted-ignored eintr s l a b c d = refl
  accepted-ignored eagain s l a b c d = absurd (b refl)
  accepted-ignored econnreset s l a b c d = refl
  accepted-ignored epipe s l a b c d = refl
  accepted-ignored end_of_file s l a b c d = refl
  accepted-ignored (other n) s l a b c d =
      let x : (n == enfile) ≡ false = elim (Bool-cases (n == enfile)) [
        | inl e ↦ absurd (c (ap other ((==_iff n enfile).0 e)))
        | inr e ↦ e
      ] in
      let y : (n == emfile) ≡ false = elim (Bool-cases (n == emfile)) [
        | inl e ↦ absurd (d (ap other ((==_iff n emfile).0 e)))
        | inr e ↦ e
      ] in
      rw (x, y) refl

  pub turn-on :
      (a : Answer (ℤ × Bool)) (more : List (Answer (ℤ × Bool))) (l l' : Listener)
      → awake l ≡ true
      → accept_one enfile emfile eproto handler rejection a l ≡ done (true, l')
      → accept_loop enfile emfile eproto handler rejection (a ∷ more) l
        ≡ accept_loop enfile emfile eproto handler rejection more l'
  unfolding accept_loop
  turn-on a more l l' w e = rw (w, e, accept_loop) refl

  pub turn-off :
      (a : Answer (ℤ × Bool)) (more : List (Answer (ℤ × Bool))) (l l' : Listener)
      → awake l ≡ true
      → accept_one enfile emfile eproto handler rejection a l ≡ done (false, l')
      → accept_loop enfile emfile eproto handler rejection (a ∷ more) l ≡ done l'
  unfolding accept_loop
  turn-off a more l l' w e = rw (w, e, accept_loop) refl

  pub turn-fault :
      (a : Answer (ℤ × Bool)) (more : List (Answer (ℤ × Bool))) (l : Listener)
      → awake l ≡ true
      → accept_one enfile emfile eproto handler rejection a l ≡ fault
      → accept_loop enfile emfile eproto handler rejection (a ∷ more) l ≡ fault
  unfolding accept_loop
  turn-fault a more l w e = rw (w, e, accept_loop) refl

  pub accept_loop-empty :
      (l : Listener)
      → awake l ≡ true
      → accept_loop enfile emfile eproto handler rejection [] l ≡ out_of_fuel
  unfolding accept_loop
  accept_loop-empty l w = ap (λ (b : Bool). if b then out_of_fuel else done l) w

  pub on_read-awake :
      (answers : List (Answer (ℤ × Bool))) (l : Listener)
      → awake l ≡ true
      → on_read enfile emfile eproto handler rejection answers l
        ≡ accept_loop enfile emfile eproto handler rejection answers l
  unfolding on_read
  on_read-awake answers l w =
      ap
        (λ (b : Bool).
          if b then accept_loop enfile emfile eproto handler rejection answers l else fault)
        w

  reject-fault : (unknown : Errno) (l : Listener) → reject unknown rejection l ≡ fault
  unfolding reject accept_ec Socket.closed
  reject-fault unknown l = elim (Bool-cases (invalid l.idle_file)) [
    | inl e ↦ rw e refl
    | inr e ↦ rw e refl
  ]

  pub accepted-full :
      (n : ℕ) (s : Socket) (l : Listener)
      → (n ≡ enfile) ⊎ (n ≡ emfile)
      → accepted enfile emfile eproto handler rejection l (other n, s) ≡ fault
  unfolding accepted
  accepted-full n s l e =
      let full : ((n == enfile) || (n == emfile)) ≡ true = ground arith in
      ap (λ (b : Bool). if b then reject (other eproto) rejection l else done (true, l)) full
      ∙ reject-fault (other eproto) l

  pub hand-append :
      (ss : List Socket) (s : Socket) (l : Listener) → hand ss (hand (s ∷ []) l) ≡ hand (s ∷ ss) l
  hand-append ss s l =
      ap (λ (q : List Socket). record l { handed = q }) (append_assoc l.handed (s ∷ []) ss)

  pub hand-none : (l : Listener) → l ≡ hand [] l
  hand-none l = ap (λ (q : List Socket). record l { handed = q }) (sym (append-nil l.handed))
