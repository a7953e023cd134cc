-- ===== src/Listener/Laws.antt =====
-- What the loop of `on_read` in libkngin/detail/net/impl/posix_listener.cpp does with the connections
-- that come.
use libkngin.Base.{
  ℕ, ◌≡◌, refl, sym, ap, ◌∙◌, Bool, true, false, List, [], ◌∷◌, ◌++◌, ◌⊎◌, ◌==◌, append-nil,
}
use libkngin.Base.Int.{ℤ}
use libkngin.Base.Run.{done, fault, out_of_fuel, ◌>>=◌}
use libkngin.Socket.{Socket, Answer, returned, refused, accept_ec, close_ec}
use libkngin.Socket
use libkngin.Tcp.World.{eagain, other}
use libkngin.Listener.{
  Listener, Rejection, awake, new_socket, accepted, accept_one, accept_loop, on_read,
}
use libkngin.Listener.Turns.{
  IsOrdinary, connections, hand, accept_ec-known, accept_ec-unknown, accept_ec-refused,
  accepted-success, accepted-ignored, turn-on, turn-off, turn-fault, accept_loop-empty,
  on_read-awake, accepted-full, hand-append, hand-none,
}

module _ (enfile emfile eproto : ℕ) (handler : Socket → Listener → Listener) (rejection : Rejection)
    (quiet : (s : Socket) (l : Listener) → handler s l ≡ l) where
  module _ (distinct : ((eproto == enfile) ≡ false) × ((eproto == emfile) ≡ false)) where
    accept_loop-ordinary :
        (xs ys : List (Answer (ℤ × Bool))) (l : Listener)
        → awake l ≡ true
        → Socket.closed l.socket ≡ false
        → IsOrdinary enfile emfile xs
        → accept_loop enfile emfile eproto handler rejection (xs ++ ys) l
          ≡ accept_loop enfile emfile eproto handler rejection ys (hand (connections l.socket xs) l)
    unfolding accepted accept_one
    accept_loop-ordinary [] ys l w c o =
        ap (accept_loop enfile emfile eproto handler rejection ys)
          (hand-none enfile emfile eproto handler rejection quiet l)
    accept_loop-ordinary (returned (h, true) ∷ xs) ys l w c o =
        let s : Socket = record { handle = h; shut = false; ipv6 = l.socket.ipv6 } in
        turn-on enfile emfile eproto handler rejection quiet (returned (h, true)) (xs ++ ys) l
          (hand (s ∷ []) l) w
          (ap (λ m. m >>= accepted enfile emfile eproto handler rejection l)
              (accept_ec-known (other eproto) l.socket c h)
            ∙ accepted-success enfile emfile eproto handler rejection quiet s l)
        ∙ accept_loop-ordinary xs ys (hand (s ∷ []) l) w c o
        ∙ ap (accept_loop enfile emfile eproto handler rejection ys)
            (hand-append enfile emfile eproto handler rejection quiet (connections l.socket xs) s l)
    accept_loop-ordinary (returned (h, false) ∷ xs) ys l w c o =
        turn-on enfile emfile eproto handler rejection quiet (returned (h, false)) (xs ++ ys) l l w
          (ap (λ m. m >>= accepted enfile emfile eproto handler rejection l)
              (accept_ec-unknown (other eproto) l.socket c h)
            ∙ rw (distinct.0, distinct.1) refl)
        ∙ accept_loop-ordinary xs ys l w c o
    accept_loop-ordinary (refused e ∷ xs) ys l w c o =
        turn-on enfile emfile eproto handler rejection quiet (refused e) (xs ++ ys) l l w (
          ap (λ m. m >>= accepted enfile emfile eproto handler rejection l)
            (accept_ec-refused (other eproto) l.socket c e)
          ∙ accepted-ignored enfile emfile eproto handler rejection quiet e new_socket l o.0 o.1 o.2
              o.3)
        ∙ accept_loop-ordinary xs ys l w c o.4

    -- With a handler that leaves the listener alone, `on_read` hands each connection over, once and in
    -- the order in which they come, passes over every error that does not mean that no descriptor is
    -- left, and returns at the first EAGAIN with the listener otherwise as it was.
    pub on_read-eagain :
        (xs ys : List (Answer (ℤ × Bool))) (l : Listener)
        → awake l ≡ true
        → Socket.closed l.socket ≡ false
        → IsOrdinary enfile emfile xs
        → on_read enfile emfile eproto handler rejection (xs ++ refused eagain ∷ ys) l
          ≡ done (record l { handed = l.handed ++ connections l.socket xs })
    unfolding accept_one accepted
    on_read-eagain xs ys l w c o =
        let l' = hand (connections l.socket xs) l in
        on_read-awake enfile emfile eproto handler rejection quiet (xs ++ refused eagain ∷ ys) l w
        ∙ accept_loop-ordinary xs (refused eagain ∷ ys) l w c o
        ∙ turn-off enfile emfile eproto handler rejection quiet (refused eagain) ys l' l' w (
            ap (λ m. m >>= accepted enfile emfile eproto handler rejection l')
              (accept_ec-refused (other eproto) l.socket c eagain))

    -- With a handler that leaves the listener alone, `on_read` of an open listener does not return as
    -- long as the system answers to each `accept` with a connection or with an error that is neither
    -- EAGAIN nor one of the two that mean that no descriptor is left: it uses up any number of such
    -- answers and asks for another, also if the error is the same for ever.
    pub on_read-out_of_fuel :
        (xs : List (Answer (ℤ × Bool))) (l : Listener)
        → awake l ≡ true
        → Socket.closed l.socket ≡ false
        → IsOrdinary enfile emfile xs
        → on_read enfile emfile eproto handler rejection xs l ≡ out_of_fuel
    on_read-out_of_fuel xs l w c o =
        on_read-awake enfile emfile eproto handler rejection quiet xs l w
        ∙ ap
            (λ (q : List (Answer (ℤ × Bool))).
              accept_loop enfile emfile eproto handler rejection q l)
            (sym (append-nil xs))
        ∙ accept_loop-ordinary xs [] l w c o
        ∙ accept_loop-empty enfile emfile eproto handler rejection quiet
            (hand (connections l.socket xs) l) w

    -- When no descriptor is left, `on_read` fails an assertion, since it accepts the connection that it
    -- means to reject on a socket that is not open, and not on the listening one.
    pub on_read-fault :
        (n : ℕ) (xs ys : List (Answer (ℤ × Bool))) (l : Listener)
        → awake l ≡ true
        → Socket.closed l.socket ≡ false
        → IsOrdinary enfile emfile xs
        → (n ≡ enfile) ⊎ (n ≡ emfile)
        → on_read enfile emfile eproto handler rejection (xs ++ refused (other n) ∷ ys) l ≡ fault
    unfolding accept_one
    on_read-fault n xs ys l w c o e =
        let l' = hand (connections l.socket xs) l in
        on_read-awake enfile emfile eproto handler rejection quiet (xs ++ refused (other n) ∷ ys) l
          w
        ∙ accept_loop-ordinary xs (refused (other n) ∷ ys) l w c o
        ∙ turn-fault enfile emfile eproto handler rejection quiet (refused (other n)) ys l' w (
            ap (λ m. m >>= accepted enfile emfile eproto handler rejection l')
              (accept_ec-refused (other eproto) l.socket c (other n))
            ∙ accepted-full enfile emfile eproto handler rejection quiet n new_socket l' e)
