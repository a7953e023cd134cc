-- ===== src/Tcp/Istream/Laws.antt =====
-- Where `socket::recv` of libkngin/detail/net/impl/posix_socket.cpp puts its bytes.
use libkngin.Base.{
  ℕ, ◌+◌, ◌-◌, ◌%◌, ◌^◌, ◌<◌, ◌≤◌, ◌≡◌, refl, ap, ◌∙◌, false, List, ◌∷◌, arith, ltb, ◌==◌,
  if◌then◌else◌, length, length-take, take,
}
use libkngin.Base.Memory.{load, store, load-store}
use libkngin.Base.Result.{Result, ok, throw}
use libkngin.Base.Run.{Run, done, fault}
use libkngin.Buffer.In.{InBuffer, IsValid, writeable, advance}
use libkngin.Tcp.World.{World, Errno, RecvAnswer, arrived, success}
use libkngin.Tcp.Istream.{recv, recv_answer, left_over}

pub writeable_lem : (b : InBuffer) → IsValid b → writeable b ≡ b.size - b.valid
unfolding writeable
writeable_lem b v = omega (arith, v.fits, v.within)

pub advance_lem :
    (b : InBuffer) (n : ℕ)
    → IsValid b
    → n ≤ b.size - b.valid
    → advance b n ≡ ok (record b { valid = b.valid + n })
unfolding advance
advance_lem b n v h =
    let room = writeable_lem b v in
    let fits = v.fits in
    let within = v.within in
    let allowed : ltb (writeable b) n ≡ false = ground arith in
    let sum : (b.valid + n) % 2 ^ 64 ≡ b.valid + n = omega arith in rw (allowed, sum) refl

-- The session after a receive of `bs`.
abbrev pub with_bytes : InBuffer → World → List ℕ → List RecvAnswer → World
with_bytes buf w bs rest =
    let n = buf.size - buf.valid in
    record w { recvs = left_over n bs rest; mem = store w.mem buf.arr (take n bs) }

pub recv-arrived :
    (buf : InBuffer) (w : World) (bs : List ℕ) (rest : List RecvAnswer)
    → IsValid buf
    → buf.valid < buf.size
    → w.recvs ≡ arrived bs ∷ rest
    → let got = take (buf.size - buf.valid) bs in
      recv buf w
      ≡ done (
        length got,
        success,
        record buf { valid = buf.valid + length got },
        with_bytes buf w bs rest,
      )
unfolding recv recv_answer
recv-arrived buf w bs rest v room e =
    let n = buf.size - buf.valid in
    let got = take n bs in
    let size = writeable_lem buf v in
    let some_room : (writeable buf == 0) ≡ false = ground arith in
    let fits : length got ≤ n = omega (arith, length-take n bs) in
    let body : ℕ → Result InBuffer → Run (ℕ × Errno × InBuffer × World) = λ m a. elim a [
      | ok buf' ↦ done (
        length (take m bs),
        success,
        buf',
        record w { recvs = left_over m bs rest; mem = store w.mem buf.arr (take m bs) },
      )
      | throw ex ↦ fault
    ] in
    ap (λ c. if c then fault else recv_answer w.recvs buf w) some_room
    ∙ ap (λ rs. recv_answer rs buf w) e
    ∙ ap (λ m. body m (advance buf (length (take m bs)))) size
    ∙ ap (body n) (advance_lem buf (length got) v fits)

-- A receive into a valid buffer with room, when bytes have arrived, takes as many as fit, counts
-- them behind those that the buffer holds, leaves the others in the kernel, and stores them at the
-- start of the buffer, over the bytes that it holds.
pub recv_lem :
    (buf : InBuffer) (w : World) (bs : List ℕ) (rest : List RecvAnswer)
    → IsValid buf
    → buf.valid < buf.size
    → w.recvs ≡ arrived bs ∷ rest
    → let got = take (buf.size - buf.valid) bs in
      (w' : World) × (recv buf w
        ≡ done (length got, success, record buf { valid = buf.valid + length got }, w'))
      × (load w'.mem buf.arr (length got) ≡ got)
      × (w'.recvs ≡ left_over (buf.size - buf.valid) bs rest)
recv_lem buf w bs rest v room e = (
  with_bytes buf w bs rest,
  recv-arrived buf w bs rest v room e,
  load-store w.mem buf.arr (take (buf.size - buf.valid) bs),
  refl,
)
