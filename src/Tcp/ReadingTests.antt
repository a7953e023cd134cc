-- ===== src/Tcp/ReadingTests.antt =====
-- A run of the loop of `on_read` whose handler posts the next buffer.
use mathlib.Core.Path.{subst}
use libkngin.Base.{◌≡◌, refl, sym, true, false, [], ◌∷◌, arith}
use libkngin.Base.Run.{Run, done, fault, out_of_fuel}
use libkngin.Buffer.In.{InBuffer}
use libkngin.Tcp.World.{World, Errno, arrived, eintr, fail}
use libkngin.Tcp.Istream.{on_read, async_read}
use libkngin.Tcp.Istream.Ready.{IsReady, async_read-IsReady}
use libkngin.Tcp.Istream.Reading.{on_read_lem}
use libkngin.Tcp.Tests.{session}

-- A buffer of two bytes that holds none yet.
abbrev fresh : InBuffer
fresh = record { arr = 16; size = 2; valid = 0 }

abbrev ended : World → Run World → World
ended w (done w') = w'
ended w fault = w
ended w out_of_fuel = w

-- A handler that posts `fresh` again.
abbrev again : InBuffer → Errno → World → World
again buf ec w = ended w (async_read false fresh w)

again-keeps :
    (buf : InBuffer) (ec : Errno) (w : World)
    → IsReady w.inp
    → IsReady (again buf ec w).inp × ((again buf ec w).recvs ≡ w.recvs)
again-keeps buf ec w r =
    let (w', e, r', same) =
      async_read-IsReady false fresh w r (record { fits = omega arith; within = omega arith })
        (omega arith) in
    subst (λ (m : Run World). IsReady (ended w m).inp × ((ended w m).recvs ≡ w.recvs)) (sym e)
      (r', same)

-- The receive is interrupted once, then three bytes arrive for a buffer of two.
abbrev reading : World
reading = record session {
  inp = record {
    ctxq = record { buffer = fresh; need_complete = true } ∷ [];
    next_ctx = true;
    complete = false;
  };
  recvs = fail eintr ∷ arrived (5 ∷ 6 ∷ 7 ∷ []) ∷ [];
}

reading-IsReady : IsReady reading.inp
reading-IsReady = record {
  waiting = ((record { fits = omega arith; within = omega arith }, omega arith), tt);
  next = refl;
  quiet = λ h. refl;
}

on_read_lem_example : (w : World) × (on_read again (λ b w. w) 6 reading ≡ done w) × IsReady w.inp
on_read_lem_example =
    on_read_lem again (λ b w. w) again-keeps 6 reading reading-IsReady refl (omega arith)
