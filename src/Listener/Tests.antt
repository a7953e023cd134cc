-- ===== src/Listener/Tests.antt =====
-- Runs of a listener on three answers of the system, and of its constructor.
use libkngin.Base.{◌≡◌, refl, Bool, true, false, List, [], ◌∷◌, ◌++◌, inr}
use libkngin.Base.Int.{ℤ, pos}
use libkngin.Base.Run.{done, fault, out_of_fuel}
use libkngin.Socket.{Socket, Answer, returned, refused}
use libkngin.Socket
use libkngin.Tcp.World.{eintr, eagain, other}
use libkngin.Listener.{Listener, Rejection, Setup, on_read}
use libkngin.Listener.Turns.{IsOrdinary, connections}
use libkngin.Listener.Laws.{on_read-eagain, on_read-out_of_fuel, on_read-fault}

abbrev sock : Socket
sock = record { handle = pos 3; shut = false; ipv6 = false }

abbrev listener : Listener
listener = record {
  socket = sock;
  idle_file = pos 4;
  registered = true;
  closed = false;
  handed = [];
}

abbrev quiet : Socket → Listener → Listener
quiet s l = l

abbrev rejection : Rejection
rejection = record {
  accepted = refused eagain;
  temp_closed = returned tt;
  reopened = pos 4;
  idle_closed = returned tt;
}

-- A connection, an interrupted call, and a connection of an unknown family.
abbrev answers : List (Answer (ℤ × Bool))
answers = returned (pos 5, true) ∷ refused eintr ∷ returned (pos 6, false) ∷ []

answers-IsOrdinary : IsOrdinary 23 24 answers
answers-IsOrdinary = ((λ e. cc), (λ e. cc), (λ e. cc), (λ e. cc), tt)

on_read-eagain_example :
    on_read 23 24 71 quiet rejection (answers ++ refused eagain ∷ []) listener
    ≡ done (record listener { handed = connections sock answers })
unfolding Socket.closed
on_read-eagain_example =
    on_read-eagain 23 24 71 quiet rejection (λ s l. refl) (refl, refl) answers [] listener refl refl
      answers-IsOrdinary

on_read-out_of_fuel_example : on_read 23 24 71 quiet rejection answers listener ≡ out_of_fuel
unfolding Socket.closed
on_read-out_of_fuel_example =
    on_read-out_of_fuel 23 24 71 quiet rejection (λ s l. refl) (refl, refl) answers listener refl
      refl answers-IsOrdinary

on_read-fault_example :
    on_read 23 24 71 quiet rejection (answers ++ refused (other 24) ∷ []) listener ≡ fault
unfolding Socket.closed
on_read-fault_example =
    on_read-fault 23 24 71 quiet rejection (λ s l. refl) (refl, refl) 24 answers [] listener refl
      refl answers-IsOrdinary (inr refl)

-- `bind`, the seventh call, fails.
abbrev failing : Setup
failing = record {
  handler = true;
  opened = pos 4;
  calls =
      returned tt
      ∷ returned tt
      ∷ returned tt
      ∷ returned tt
      ∷ returned tt
      ∷ returned tt
      ∷ refused (other 98)
      ∷ [];
  sock_closed = returned tt;
  idle_closed = returned tt;
}

abbrev leaking : Setup
leaking = record failing { sock_closed = refused (other 5) }
