-- ===== src/Tcp/Istream/Ready.antt =====
-- When the stream of libkngin/detail/net/tcp/impl/posix_tcp_istream.cpp is ready for `on_read`, and what one
-- receive does to its first buffer.
use libkngin.Base.{
  ℕ, ◌+◌, ◌-◌, ◌<◌, ◌≡◌, refl, ap, sym, Bool, true, false, not, ◌&&◌, List, [], ◌∷◌, ◌++◌, arith,
  ◌==◌, if◌then◌else◌, length, length-take, length-drop, take, drop, min,
}
use libkngin.Base.Run.{done, fault}
use libkngin.Buffer.In.{InBuffer, IsValid, writeable}
use libkngin.EpollEvent.{et}
use libkngin.Tcp.World.{
  World, Istream, InContext, Errno, RecvAnswer, arrived, fail, success, eintr, eagain, request,
  run_on_read, failed,
}
use libkngin.Tcp.Istream.{with_in, left_over, recv, recv_answer, async_read}
use libkngin.Tcp.Istream.Laws.{writeable_lem, with_bytes, recv-arrived}

-- A context that waits has a valid buffer with room.
abbrev pub Waits : InContext → Type 0
Waits c = IsValid c.buffer × (c.buffer.valid < c.buffer.size)

abbrev pub AllWait : List InContext → Type 0
AllWait [] = Unit {0}
AllWait (c ∷ cs) = Waits c × AllWait cs

abbrev pub any : List InContext → Bool
any [] = false
any (c ∷ cs) = true

-- `next_ctx_` is null exactly when no context waits, and `complete_` is then not set.
pub record IsReady (i : Istream) : Type 0 where
  pub waiting : AllWait i.ctxq
  pub next : i.next_ctx ≡ any i.ctxq
  pub quiet : i.next_ctx ≡ false → i.complete ≡ false

-- The answers that the kernel still gives, and the bytes in them.
abbrev pub weight : List RecvAnswer → ℕ
weight [] = 0
weight (fail ec ∷ rest) = 1 + weight rest
weight (arrived bs ∷ rest) = 1 + length bs + weight rest

weight-left_over :
    (n : ℕ) (bs : List ℕ) (rest : List RecvAnswer)
    → 0 < n
    → 0 < length bs
    → weight (left_over n bs rest) < 1 + length bs + weight rest
unfolding left_over
weight-left_over n bs rest h k = of_drop (drop n bs) (length-drop n bs)
  where
    of_drop :
        (ds : List ℕ)
        → length ds ≡ length bs - n
        → weight (elim ds [ [] ↦ rest | b ∷ more ↦ arrived (b ∷ more) ∷ rest ])
          < 1 + length bs + weight rest
    of_drop [] e = omega arith
    of_drop (d ∷ ds) e = omega arith

-- Whether the loop goes on after a receive.
abbrev pub goes_on : ℕ → Errno → Bool
goes_on size success = not (size == 0)
goes_on size eintr = true
goes_on size ec = false

-- What a receive into a buffer with room comes to.
pub record Received (buf : InBuffer) (w : World) : Type 0 where
  pub size : ℕ
  pub ec : Errno
  pub buf' : InBuffer
  pub w' : World
  pub run : recv buf w ≡ done (size, ec, buf', w')
  pub valid : IsValid buf'
  pub room : size ≡ 0 → buf'.valid < buf'.size
  pub empty : failed ec ≡ true → size ≡ 0
  pub same : w'.inp ≡ w.inp
  pub falls : goes_on size ec ≡ true → weight w'.recvs < weight w.recvs

pub recv-step :
    (buf : InBuffer) (w : World) (rs : List RecvAnswer)
    → IsValid buf
    → buf.valid < buf.size
    → w.recvs ≡ rs
    → Received buf w
unfolding recv
recv-step buf w [] v room e =
    let some_room : (writeable buf == 0) ≡ false = ground (arith, writeable_lem buf v) in
    record {
      size = 0;
      ec = eagain;
      buf' = buf;
      w' = w;
      run = rw (some_room, e, recv_answer) refl;
      valid = v;
      room = λ h. room;
      empty = λ h. refl;
      same = refl;
      falls = λ h. cc;
    }
recv-step buf w (fail ec ∷ rest) v room e =
    let some_room : (writeable buf == 0) ≡ false = ground (arith, writeable_lem buf v) in
    record {
      size = 0;
      ec = ec;
      buf' = buf;
      w' = record w { recvs = rest };
      run = rw (some_room, e, recv_answer) refl;
      valid = v;
      room = λ h. room;
      empty = λ h. refl;
      same = refl;
      falls = λ h. ground (arith, ap weight e);
    }
recv-step buf w (arrived bs ∷ rest) v room e =
    let n = buf.size - buf.valid in
    let got = take n bs in
    let fits : length got ≡ min n (length bs) = length-take n bs in
    record {
      size = length got;
      ec = success;
      buf' = record buf { valid = buf.valid + length got };
      w' = with_bytes buf w bs rest;
      run = recv-arrived buf w bs rest v room e;
      valid = record { fits = v.fits; within = omega (arith, v.within) };
      room = λ h. omega arith;
      empty = λ h. cc;
      same = refl;
      falls = λ h.
          let less = weight-left_over n bs rest (omega arith) (ground arith) in
          omega (arith, ap weight e);
    }

AllWait-append :
    (cs : List InContext) (c : InContext) → AllWait cs → Waits c → AllWait (cs ++ c ∷ [])
AllWait-append [] c vs v = (v, tt)
AllWait-append (d ∷ cs) c vs v = (vs.0, AllWait-append cs c vs.1 v)

any-append : (cs : List InContext) (c : InContext) → any (cs ++ c ∷ []) ≡ true
any-append [] c = refl
any-append (d ∷ cs) c = refl

asked-IsReady :
    (w : World) (b : Bool) → IsReady w.inp → IsReady (if b then request run_on_read w else w).inp
asked-IsReady w true r = r
asked-IsReady w false r = r

asked-recvs : (w : World) (b : Bool) → (if b then request run_on_read w else w).recvs ≡ w.recvs
asked-recvs w true = refl
asked-recvs w false = refl

-- A posted buffer with room keeps a stream ready.
pub async_read-IsReady :
    (need_complete : Bool) (buf : InBuffer) (w : World)
    → IsReady w.inp
    → IsValid buf
    → buf.valid < buf.size
    → (w' : World) × (async_read need_complete buf w ≡ done w')
      × IsReady w'.inp
      × (w'.recvs ≡ w.recvs)
unfolding async_read
async_read-IsReady need_complete buf w r v room =
    let i : Istream = w.inp in
    let c : InContext = record { buffer = buf; need_complete = need_complete } in
    let w1 = with_in w (record i { ctxq = i.ctxq ++ c ∷ []; next_ctx = true }) in
    let ready : IsReady w1.inp = record {
      waiting = AllWait-append i.ctxq c r.waiting (v, room);
      next = sym (any-append i.ctxq c);
      quiet = λ h. cc;
    } in
    let some_room : (writeable buf == 0) ≡ false = ground (arith, writeable_lem buf v) in
    let asked = if not i.complete && et w.ev then request run_on_read w1 else w1 in
    (
      asked,
      ap (λ (b : Bool). if b then fault else done asked) some_room,
      asked-IsReady w1 (not i.complete && et w.ev) ready,
      asked-recvs w1 (not i.complete && et w.ev),
    )
