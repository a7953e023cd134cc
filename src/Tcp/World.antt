-- ===== src/Tcp/World.antt =====
-- The state of a `posix_session` with its streams, the memory of the caller's buffers, and the
-- kernel's side of the socket: the answers that it will give, and the bytes that it has taken.
use libkngin.Base.{ℕ, min, Bool, true, false, ◌||◌, List, [], ◌∷◌, ◌++◌, length, take}
use libkngin.Base.Memory.{Memory}
use libkngin.Buffer.In.{InBuffer}
use libkngin.EpollEvent.{EpollEvent}

-- The error codes that the streams tell apart. `success` is KNGIN_ESUCCESS.
pub data Errno : Type 0 where
  success eintr eagain econnreset epipe end_of_file : Errno
  other : ℕ → Errno

-- The bits of `flags_`.
pub record Flags : Type 0 where
  pub closed : Bool
  pub shutdown : Bool
  pub closing : Bool
  pub error : Bool
  pub eof : Bool
  pub reset : Bool

-- `posix_session::ostream`. `next_buffer` says whether `next_buffer_` is not null.
pub record Ostream : Type 0 where
  pub oobq : List ℕ
  pub buffers : List (List ℕ)
  pub rindex : ℕ
  pub windex : ℕ
  pub next_buffer : Bool
  pub complete : Bool

-- `posix_session::istream::in_context`.
pub record InContext : Type 0 where
  pub buffer : InBuffer
  pub need_complete : Bool

-- `posix_session::istream`. The deque is written from its back to its front, so that the oldest
-- context comes first; `next_ctx` says whether `next_ctx_` points to that one or is null.
pub record Istream : Type 0 where
  pub ctxq : List InContext
  pub next_ctx : Bool
  pub complete : Bool

-- What the session asks of its event loop, and of its socket.
pub data Request : Type 0 where
  remove_event : EpollEvent → Request
  close_socket : Request
  shutdown_socket : Request
  run_stop_read : Request
  run_start_read : Request
  update_event : EpollEvent → Request
  run_on_read : Request
  run_on_write : Request
  run_close : Request

-- What a handler of the user is told.
pub data Callback : Type 0 where
  wrote : ℕ → Errno → Callback
  received : InBuffer → Errno → Callback
  urgent : ℕ → Callback
  closed : Callback

-- What the kernel answers to a send: it has room for so many bytes, or it fails.
pub data SendAnswer : Type 0 where
  room : ℕ → SendAnswer
  fail : Errno → SendAnswer

-- What it answers to a receive: these bytes are there (none at the end of the stream), or it fails.
pub data RecvAnswer : Type 0 where
  arrived : List ℕ → RecvAnswer
  fail : Errno → RecvAnswer

pub record World : Type 0 where
  pub flags : Flags
  pub last_error : Errno
  pub ev : EpollEvent
  pub out : Ostream
  pub inp : Istream
  pub mem : Memory
  pub requests : List Request
  pub log : List Callback
  pub sends : List SendAnswer
  pub recvs : List RecvAnswer
  pub oob_recvs : List RecvAnswer
  pub wire : List ℕ
  pub oob_wire : List ℕ

-- `if (ec)`
abbrev pub failed : Errno → Bool
failed success = false
failed ec = true

abbrev pub request : Request → World → World
request r w = record w { requests = w.requests ++ r ∷ [] }

-- `loop_.update_event(ev_)` with the new interest of the session.
abbrev pub update_interest : EpollEvent → World → World
update_interest ev w = record w { ev = ev; requests = w.requests ++ update_event ev ∷ [] }

-- The bytes that `socket::send (buf, flags, ec)` hands over, as it returns its size and its error.
-- A kernel that is asked more often than it has answers for has no room.
unfoldable pub send_answer : List SendAnswer → List ℕ → World → ℕ × Errno × World
send_answer [] bs w = (0, eagain, w)
send_answer (fail ec ∷ rest) bs w = (0, ec, record w { sends = rest })
send_answer (room k ∷ rest) bs w =
    (min k (length bs), success, record w { sends = rest; wire = w.wire ++ take k bs })

abbrev pub send_data : List ℕ → World → ℕ × Errno × World
send_data bs w = send_answer w.sends bs w

-- The same for one byte with `message_oob`.
unfoldable pub send_oob : ℕ → World → ℕ × Errno × World
send_oob b w = elim w.sends [
  | [] ↦ (0, eagain, w)
  | fail ec ∷ rest ↦ (0, ec, record w { sends = rest })
  | room k ∷ rest ↦
      (min k 1, success, record w { sends = rest; oob_wire = w.oob_wire ++ take k (b ∷ []) })
]

-- KNGIN_ECONNRESET or KNGIN_EPIPE.
abbrev pub is_lost : Errno → Bool
is_lost econnreset = true
is_lost epipe = true
is_lost _ = false

-- `flags_ |= flag_reset` for a lost connection, `flags_ |= flag_error`, `last_error_ = ec`.
unfoldable pub set_error : Errno → World → World
set_error ec w =
    let f : Flags = w.flags in
    record w { flags = record f { error = true; reset = is_lost ec || f.reset }; last_error = ec }

-- `flags_ &= ~flag_error`
unfoldable pub clear_error : World → World
clear_error w = let f : Flags = w.flags in record w { flags = record f { error = false } }
