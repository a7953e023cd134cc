-- ===== src/SockOpts/Options.antt =====
-- The getters and setters of libkngin/include/kngin/net/sockopts.h, one for each option.
use libkngin.Base.{Bool}
use libkngin.Base.Int.{ℤ, pos, ◌-ℤ◌}
use libkngin.Base.Result.{Result, ok, throw}
use libkngin.Base.Run.{Run, done, fault, out_of_fuel}
use libkngin.Socket.{Socket, Answer}
use libkngin.SockOpts.{
  SockoptVal, SockoptsInfo, SockoptsType, opts_entry, int_of, set_int, set_flag, set_linger_val,
  set_timeval, get_int, get_flag, get_linger, get_timeval,
}

module _ {K : Type 0} (getsockopt : ℤ → SockoptsInfo → K → Answer SockoptVal)
    (setsockopt : ℤ → SockoptsInfo → SockoptVal → K → Answer (Unit {0}) × K) where
  abbrev pub broadcast : Socket → K → Run (Result Bool)
  broadcast s =
      get_flag getsockopt setsockopt s.handle (opts_entry SockoptsType.sockopts_type_broadcast)

  abbrev pub set_broadcast : Socket → Bool → K → Result (Unit {0}) × K
  set_broadcast s v =
      set_flag getsockopt setsockopt (int_of v) s.handle
        (opts_entry SockoptsType.sockopts_type_broadcast)

  abbrev pub debug : Socket → K → Run (Result Bool)
  debug s = get_flag getsockopt setsockopt s.handle (opts_entry SockoptsType.sockopts_type_debug)

  abbrev pub set_debug : Socket → Bool → K → Result (Unit {0}) × K
  set_debug s v =
      set_flag getsockopt setsockopt (int_of v) s.handle
        (opts_entry SockoptsType.sockopts_type_debug)

  abbrev pub nonroute : Socket → K → Run (Result Bool)
  nonroute s =
      get_flag getsockopt setsockopt s.handle (opts_entry SockoptsType.sockopts_type_dontroute)

  abbrev pub set_nonroute : Socket → Bool → K → Result (Unit {0}) × K
  set_nonroute s v =
      set_flag getsockopt setsockopt (int_of v) s.handle
        (opts_entry SockoptsType.sockopts_type_dontroute)

  abbrev pub keepalive : Socket → K → Run (Result Bool)
  keepalive s =
      get_flag getsockopt setsockopt s.handle (opts_entry SockoptsType.sockopts_type_keepalive)

  abbrev pub set_keepalive : Socket → Bool → K → Result (Unit {0}) × K
  set_keepalive s v =
      set_flag getsockopt setsockopt (int_of v) s.handle
        (opts_entry SockoptsType.sockopts_type_keepalive)

  abbrev pub linger : Socket → K → Run (Result (ℤ × ℤ))
  linger s =
      get_linger getsockopt setsockopt s.handle (opts_entry SockoptsType.sockopts_type_linger)

  abbrev pub set_linger : Socket → Bool → ℤ → K → Result (Unit {0}) × K
  set_linger s on t =
      set_linger_val getsockopt setsockopt (int_of on) t s.handle
        (opts_entry SockoptsType.sockopts_type_linger)

  abbrev pub oob_inline : Socket → K → Run (Result Bool)
  oob_inline s =
      get_flag getsockopt setsockopt s.handle (opts_entry SockoptsType.sockopts_type_oobinline)

  abbrev pub set_oob_inline : Socket → Bool → K → Result (Unit {0}) × K
  set_oob_inline s v =
      set_flag getsockopt setsockopt (int_of v) s.handle
        (opts_entry SockoptsType.sockopts_type_oobinline)

  abbrev pub rcvbuf : Socket → K → Run (Result ℤ)
  rcvbuf s = get_int getsockopt setsockopt s.handle (opts_entry SockoptsType.sockopts_type_rcvbuf)

  abbrev pub set_rcvbuf : Socket → ℤ → K → Result (Unit {0}) × K
  set_rcvbuf s v =
      set_int getsockopt setsockopt v s.handle (opts_entry SockoptsType.sockopts_type_rcvbuf)

  abbrev pub sndbuf : Socket → K → Run (Result ℤ)
  sndbuf s = get_int getsockopt setsockopt s.handle (opts_entry SockoptsType.sockopts_type_sndbuf)

  abbrev pub set_sndbuf : Socket → ℤ → K → Result (Unit {0}) × K
  set_sndbuf s v =
      set_int getsockopt setsockopt v s.handle (opts_entry SockoptsType.sockopts_type_sndbuf)

  abbrev pub rcvlowat : Socket → K → Run (Result ℤ)
  rcvlowat s =
      get_int getsockopt setsockopt s.handle (opts_entry SockoptsType.sockopts_type_rcvlowat)

  abbrev pub set_rcvlowat : Socket → ℤ → K → Result (Unit {0}) × K
  set_rcvlowat s v =
      set_int getsockopt setsockopt v s.handle (opts_entry SockoptsType.sockopts_type_rcvlowat)

  abbrev pub sndlowat : Socket → K → Run (Result ℤ)
  sndlowat s =
      get_int getsockopt setsockopt s.handle (opts_entry SockoptsType.sockopts_type_sndlowat)

  abbrev pub set_sndlowat : Socket → ℤ → K → Result (Unit {0}) × K
  set_sndlowat s v =
      set_int getsockopt setsockopt v s.handle (opts_entry SockoptsType.sockopts_type_sndlowat)

  abbrev pub rcvtimeo : Socket → K → Run (Result (ℤ × ℤ))
  rcvtimeo s =
      get_timeval getsockopt setsockopt s.handle (opts_entry SockoptsType.sockopts_type_rcvtimeo)

  abbrev pub set_rcvtimeo : Socket → ℤ × ℤ → K → Result (Unit {0}) × K
  set_rcvtimeo s v =
      set_timeval getsockopt setsockopt v s.handle (opts_entry SockoptsType.sockopts_type_rcvtimeo)

  abbrev pub sndtimeo : Socket → K → Run (Result (ℤ × ℤ))
  sndtimeo s =
      get_timeval getsockopt setsockopt s.handle (opts_entry SockoptsType.sockopts_type_sndtimeo)

  abbrev pub set_sndtimeo : Socket → ℤ × ℤ → K → Result (Unit {0}) × K
  set_sndtimeo s v =
      set_timeval getsockopt setsockopt v s.handle (opts_entry SockoptsType.sockopts_type_sndtimeo)

  abbrev pub reuseaddr : Socket → K → Run (Result Bool)
  reuseaddr s =
      get_flag getsockopt setsockopt s.handle (opts_entry SockoptsType.sockopts_type_reuseaddr)

  abbrev pub set_reuseaddr : Socket → Bool → K → Result (Unit {0}) × K
  set_reuseaddr s v =
      set_flag getsockopt setsockopt (int_of v) s.handle
        (opts_entry SockoptsType.sockopts_type_reuseaddr)

  abbrev pub reuseport : Socket → K → Run (Result Bool)
  reuseport s =
      get_flag getsockopt setsockopt s.handle (opts_entry SockoptsType.sockopts_type_reuseport)

  abbrev pub set_reuseport : Socket → Bool → K → Result (Unit {0}) × K
  set_reuseport s v =
      set_flag getsockopt setsockopt (int_of v) s.handle
        (opts_entry SockoptsType.sockopts_type_reuseport)

  abbrev pub type : Socket → K → Run (Result ℤ)
  type s = get_int getsockopt setsockopt s.handle (opts_entry SockoptsType.sockopts_type_type)

  abbrev pub ip_tos : Socket → K → Run (Result ℤ)
  ip_tos s = get_int getsockopt setsockopt s.handle (opts_entry SockoptsType.sockopts_type_ip_tos)

  abbrev pub set_ip_tos : Socket → ℤ → K → Result (Unit {0}) × K
  set_ip_tos s v =
      set_flag getsockopt setsockopt v s.handle (opts_entry SockoptsType.sockopts_type_ip_tos)

  abbrev pub ip_ttl : Socket → K → Run (Result ℤ)
  ip_ttl s = get_int getsockopt setsockopt s.handle (opts_entry SockoptsType.sockopts_type_ip_ttl)

  abbrev pub set_ip_ttl : Socket → ℤ → K → Result (Unit {0}) × K
  set_ip_ttl s v =
      set_int getsockopt setsockopt v s.handle (opts_entry SockoptsType.sockopts_type_ip_ttl)

  abbrev pub ipv4_disabled : Socket → K → Run (Result Bool)
  ipv4_disabled s =
      get_flag getsockopt setsockopt s.handle (opts_entry SockoptsType.sockopts_type_ipv6_v6only)

  abbrev pub set_ipv6_only : Socket → Bool → K → Result (Unit {0}) × K
  set_ipv6_only s v =
      set_int getsockopt setsockopt (int_of v) s.handle
        (opts_entry SockoptsType.sockopts_type_ipv6_v6only)

  abbrev pub maxseg : Socket → K → Run (Result ℤ)
  maxseg s =
      get_int getsockopt setsockopt s.handle (opts_entry SockoptsType.sockopts_type_tcp_maxseg)

  abbrev pub set_maxseg : Socket → ℤ → K → Result (Unit {0}) × K
  set_maxseg s v =
      set_int getsockopt setsockopt v s.handle (opts_entry SockoptsType.sockopts_type_tcp_maxseg)

  abbrev pub nodelay : Socket → K → Run (Result Bool)
  nodelay s =
      get_flag getsockopt setsockopt s.handle (opts_entry SockoptsType.sockopts_type_tcp_nodelay)

  abbrev pub set_nodelay : Socket → Bool → K → Result (Unit {0}) × K
  set_nodelay s v =
      set_int getsockopt setsockopt (int_of v) s.handle
        (opts_entry SockoptsType.sockopts_type_tcp_nodelay)

  -- KNGIN_ERRNO negates the number.
  unfoldable pub error : Socket → K → Run (Result ℤ)
  unfolding get_int
  error s k =
      elim (get_int getsockopt setsockopt s.handle (opts_entry SockoptsType.sockopts_type_error)
        k) [
          | done r ↦ done (elim r [ ok v ↦ ok (pos 0 -ℤ v) | throw e ↦ throw e ])
          | fault ↦ fault
          | out_of_fuel ↦ out_of_fuel
        ]
