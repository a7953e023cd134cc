-- ===== src/SockOpts/Access.antt =====
-- The getters and setters of all options as two functions, and what they make of a value.
use libkngin.Base.{◌≡◌, refl, ap, Bool, true, false}
use libkngin.Base.Int.{ℤ}
use libkngin.Base.Result.{Result, ok, throw, system_error}
use libkngin.Base.Run.{Run, done, fault}
use libkngin.Socket.{Socket, Answer, returned, refused}
use libkngin.SockOpts.{
  SockoptVal, i_val, linger_val, timeval_val, SockoptsInfo, opts_entry, int_of, is_set, set_value,
  get_int, get_flag, get_linger, get_timeval,
}
use libkngin.SockOpts.Options
use libkngin.SockOpts.Opt.{
  Opt, Val, Got, read_back, entry_of, broadcast, debug, nonroute, keepalive, linger, oob_inline,
  rcvbuf, sndbuf, rcvlowat, sndlowat, rcvtimeo, sndtimeo, reuseaddr, reuseport, ip_tos, ip_ttl,
  ipv6_only, maxseg, nodelay,
}

module _ {K : Type 0} (getsockopt : ℤ → SockoptsInfo → K → Answer SockoptVal)
    (setsockopt : ℤ → SockoptsInfo → SockoptVal → K → Answer (Unit {0}) × K) where
  -- The setter and the getter of each option.
  abbrev pub set : (o : Opt) → Socket → Val o → K → Result (Unit {0}) × K
  set broadcast s v = Options.set_broadcast getsockopt setsockopt s v
  set debug s v = Options.set_debug getsockopt setsockopt s v
  set nonroute s v = Options.set_nonroute getsockopt setsockopt s v
  set keepalive s v = Options.set_keepalive getsockopt setsockopt s v
  set linger s v = Options.set_linger getsockopt setsockopt s v.0 v.1
  set oob_inline s v = Options.set_oob_inline getsockopt setsockopt s v
  set rcvbuf s v = Options.set_rcvbuf getsockopt setsockopt s v
  set sndbuf s v = Options.set_sndbuf getsockopt setsockopt s v
  set rcvlowat s v = Options.set_rcvlowat getsockopt setsockopt s v
  set sndlowat s v = Options.set_sndlowat getsockopt setsockopt s v
  set rcvtimeo s v = Options.set_rcvtimeo getsockopt setsockopt s v
  set sndtimeo s v = Options.set_sndtimeo getsockopt setsockopt s v
  set reuseaddr s v = Options.set_reuseaddr getsockopt setsockopt s v
  set reuseport s v = Options.set_reuseport getsockopt setsockopt s v
  set ip_tos s v = Options.set_ip_tos getsockopt setsockopt s v
  set ip_ttl s v = Options.set_ip_ttl getsockopt setsockopt s v
  set ipv6_only s v = Options.set_ipv6_only getsockopt setsockopt s v
  set maxseg s v = Options.set_maxseg getsockopt setsockopt s v
  set nodelay s v = Options.set_nodelay getsockopt setsockopt s v

  abbrev pub get : (o : Opt) → Socket → K → Run (Result (Got o))
  get broadcast s = Options.broadcast getsockopt setsockopt s
  get debug s = Options.debug getsockopt setsockopt s
  get nonroute s = Options.nonroute getsockopt setsockopt s
  get keepalive s = Options.keepalive getsockopt setsockopt s
  get linger s = Options.linger getsockopt setsockopt s
  get oob_inline s = Options.oob_inline getsockopt setsockopt s
  get rcvbuf s = Options.rcvbuf getsockopt setsockopt s
  get sndbuf s = Options.sndbuf getsockopt setsockopt s
  get rcvlowat s = Options.rcvlowat getsockopt setsockopt s
  get sndlowat s = Options.sndlowat getsockopt setsockopt s
  get rcvtimeo s = Options.rcvtimeo getsockopt setsockopt s
  get sndtimeo s = Options.sndtimeo getsockopt setsockopt s
  get reuseaddr s = Options.reuseaddr getsockopt setsockopt s
  get reuseport s = Options.reuseport getsockopt setsockopt s
  get ip_tos s = Options.ip_tos getsockopt setsockopt s
  get ip_ttl s = Options.ip_ttl getsockopt setsockopt s
  get ipv6_only s = Options.ipv4_disabled getsockopt setsockopt s
  get maxseg s = Options.maxseg getsockopt setsockopt s
  get nodelay s = Options.nodelay getsockopt setsockopt s

  abbrev pub encode : (o : Opt) → Val o → SockoptVal
  encode broadcast v = i_val (int_of v)
  encode debug v = i_val (int_of v)
  encode nonroute v = i_val (int_of v)
  encode keepalive v = i_val (int_of v)
  encode linger v = linger_val (int_of v.0) v.1
  encode oob_inline v = i_val (int_of v)
  encode rcvbuf v = i_val v
  encode sndbuf v = i_val v
  encode rcvlowat v = i_val v
  encode sndlowat v = i_val v
  encode rcvtimeo v = timeval_val v.0 v.1
  encode sndtimeo v = timeval_val v.0 v.1
  encode reuseaddr v = i_val (int_of v)
  encode reuseport v = i_val (int_of v)
  encode ip_tos v = i_val v
  encode ip_ttl v = i_val v
  encode ipv6_only v = i_val (int_of v)
  encode maxseg v = i_val v
  encode nodelay v = i_val (int_of v)

  pub set-value :
      (o : Opt) (s : Socket) (v : Val o) (k : K)
      → set o s v k
        ≡ set_value getsockopt setsockopt (encode o v) s.handle (opts_entry (entry_of o)) k
  set-value broadcast s v k = refl
  set-value debug s v k = refl
  set-value nonroute s v k = refl
  set-value keepalive s v k = refl
  set-value linger s v k = refl
  set-value oob_inline s v k = refl
  set-value rcvbuf s v k = refl
  set-value sndbuf s v k = refl
  set-value rcvlowat s v k = refl
  set-value sndlowat s v k = refl
  set-value rcvtimeo s v k = refl
  set-value sndtimeo s v k = refl
  set-value reuseaddr s v k = refl
  set-value reuseport s v k = refl
  set-value ip_tos s v k = refl
  set-value ip_ttl s v k = refl
  set-value ipv6_only s v k = refl
  set-value maxseg s v k = refl
  set-value nodelay s v k = refl

  abbrev decode_flag : Answer SockoptVal → Run (Result Bool)
  decode_flag a = elim a [
    | refused e ↦ done (throw system_error)
    | returned val ↦ elim val [ i_val v ↦ done (ok (is_set v)) | _ ↦ fault ]
  ]

  abbrev decode_int : Answer SockoptVal → Run (Result ℤ)
  decode_int a = elim a [
    | refused e ↦ done (throw system_error)
    | returned val ↦ elim val [ i_val v ↦ done (ok v) | _ ↦ fault ]
  ]

  abbrev decode_linger : Answer SockoptVal → Run (Result (ℤ × ℤ))
  decode_linger a = elim a [
    | refused e ↦ done (throw system_error)
    | returned val ↦ elim val [ linger_val on t ↦ done (ok (on, t)) | _ ↦ fault ]
  ]

  abbrev decode_timeval : Answer SockoptVal → Run (Result (ℤ × ℤ))
  decode_timeval a = elim a [
    | refused e ↦ done (throw system_error)
    | returned val ↦ elim val [ timeval_val s u ↦ done (ok (s, u)) | _ ↦ fault ]
  ]

  -- What a getter makes of the answer of `getsockopt`.
  abbrev pub decode : (o : Opt) → Answer SockoptVal → Run (Result (Got o))
  decode broadcast = decode_flag
  decode debug = decode_flag
  decode nonroute = decode_flag
  decode keepalive = decode_flag
  decode linger = decode_linger
  decode oob_inline = decode_flag
  decode rcvbuf = decode_int
  decode sndbuf = decode_int
  decode rcvlowat = decode_int
  decode sndlowat = decode_int
  decode rcvtimeo = decode_timeval
  decode sndtimeo = decode_timeval
  decode reuseaddr = decode_flag
  decode reuseport = decode_flag
  decode ip_tos = decode_int
  decode ip_ttl = decode_int
  decode ipv6_only = decode_flag
  decode maxseg = decode_int
  decode nodelay = decode_flag

  pub get-decode :
      (o : Opt) (s : Socket) (k : K)
      → get o s k ≡ decode o (getsockopt s.handle (opts_entry (entry_of o)) k)
  unfolding get_int get_flag get_linger get_timeval
  get-decode broadcast s k = refl
  get-decode debug s k = refl
  get-decode nonroute s k = refl
  get-decode keepalive s k = refl
  get-decode linger s k = refl
  get-decode oob_inline s k = refl
  get-decode rcvbuf s k = refl
  get-decode sndbuf s k = refl
  get-decode rcvlowat s k = refl
  get-decode sndlowat s k = refl
  get-decode rcvtimeo s k = refl
  get-decode sndtimeo s k = refl
  get-decode reuseaddr s k = refl
  get-decode reuseport s k = refl
  get-decode ip_tos s k = refl
  get-decode ip_ttl s k = refl
  get-decode ipv6_only s k = refl
  get-decode maxseg s k = refl
  get-decode nodelay s k = refl

  is_set-int_of : (b : Bool) → is_set (int_of b) ≡ b
  is_set-int_of true = refl
  is_set-int_of false = refl

  pub decode-encode :
      (o : Opt) (v : Val o) → decode o (returned (encode o v)) ≡ done (ok (read_back o v))
  decode-encode broadcast v = ap (λ (b : Bool). done (ok b)) (is_set-int_of v)
  decode-encode debug v = ap (λ (b : Bool). done (ok b)) (is_set-int_of v)
  decode-encode nonroute v = ap (λ (b : Bool). done (ok b)) (is_set-int_of v)
  decode-encode keepalive v = ap (λ (b : Bool). done (ok b)) (is_set-int_of v)
  decode-encode linger v = refl
  decode-encode oob_inline v = ap (λ (b : Bool). done (ok b)) (is_set-int_of v)
  decode-encode rcvbuf v = refl
  decode-encode sndbuf v = refl
  decode-encode rcvlowat v = refl
  decode-encode sndlowat v = refl
  decode-encode rcvtimeo v = refl
  decode-encode sndtimeo v = refl
  decode-encode reuseaddr v = ap (λ (b : Bool). done (ok b)) (is_set-int_of v)
  decode-encode reuseport v = ap (λ (b : Bool). done (ok b)) (is_set-int_of v)
  decode-encode ip_tos v = refl
  decode-encode ip_ttl v = refl
  decode-encode ipv6_only v = ap (λ (b : Bool). done (ok b)) (is_set-int_of v)
  decode-encode maxseg v = refl
  decode-encode nodelay v = ap (λ (b : Bool). done (ok b)) (is_set-int_of v)
