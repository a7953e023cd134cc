-- ===== src/SockOpts.antt =====
-- libkngin/include/kngin/net/sockopts.h and libkngin/detail/net/sockopts.cpp: the options of a socket. The
-- state of the system, and what `getsockopt` and `setsockopt` do in it, are parameters; the texts of the
-- exceptions are left out. The system has SO_REUSEPORT and IPV6_V6ONLY.
pub mod Options
pub mod Opt
pub mod Access
pub mod Laws
mod Tests
use libkngin.Base.{Bool, true, false, not, ◌==◌}
use libkngin.Base.Int.{ℤ, pos, negsuc, ◌-ℤ◌}
use libkngin.Base.Result.{Result, ok, throw, system_error}
use libkngin.Base.Run.{Run, done, fault, out_of_fuel}
use libkngin.Socket.{Socket, Answer, returned, refused}

-- The members of `union sockopt_val` that are used.
pub data SockoptVal : Type 0 where
  i_val : ℤ → SockoptVal
  linger_val : ℤ → ℤ → SockoptVal
  timeval_val : ℤ → ℤ → SockoptVal

-- The constants of the system.
pub data Level : Type 0 where
  sol_socket : Level
  ipproto_ip : Level
  ipproto_ipv6 : Level
  ipproto_tcp : Level

pub data OptName : Type 0 where
  so_broadcast : OptName
  so_debug : OptName
  so_dontroute : OptName
  so_error : OptName
  so_keepalive : OptName
  so_linger : OptName
  so_oobinline : OptName
  so_rcvbuf : OptName
  so_sndbuf : OptName
  so_rcvlowat : OptName
  so_sndlowat : OptName
  so_rcvtimeo : OptName
  so_sndtimeo : OptName
  so_reuseaddr : OptName
  so_reuseport : OptName
  so_type : OptName
  ip_tos_opt : OptName
  ip_ttl_opt : OptName
  ipv6_v6only_opt : OptName
  tcp_maxseg_opt : OptName
  tcp_nodelay_opt : OptName
  tcp_info_opt : OptName

pub record SockoptsInfo : Type 0 where
  pub opt_level : Level
  pub opt_name : OptName

-- SOCKOPTS_TYPE
pub data SockoptsType : Type 0 where
  sockopts_type_broadcast : SockoptsType
  sockopts_type_debug : SockoptsType
  sockopts_type_dontroute : SockoptsType
  sockopts_type_error : SockoptsType
  sockopts_type_keepalive : SockoptsType
  sockopts_type_linger : SockoptsType
  sockopts_type_oobinline : SockoptsType
  sockopts_type_rcvbuf : SockoptsType
  sockopts_type_sndbuf : SockoptsType
  sockopts_type_rcvlowat : SockoptsType
  sockopts_type_sndlowat : SockoptsType
  sockopts_type_rcvtimeo : SockoptsType
  sockopts_type_sndtimeo : SockoptsType
  sockopts_type_reuseaddr : SockoptsType
  sockopts_type_reuseport : SockoptsType
  sockopts_type_type : SockoptsType
  sockopts_type_ip_tos : SockoptsType
  sockopts_type_ip_ttl : SockoptsType
  sockopts_type_ipv6_v6only : SockoptsType
  sockopts_type_tcp_maxseg : SockoptsType
  sockopts_type_tcp_nodelay : SockoptsType
  sockopts_type_tcp_info : SockoptsType

unfoldable pub opts_entry : SockoptsType → SockoptsInfo
opts_entry sockopts_type_broadcast = record { opt_level = sol_socket; opt_name = so_broadcast }
opts_entry sockopts_type_debug = record { opt_level = sol_socket; opt_name = so_debug }
opts_entry sockopts_type_dontroute = record { opt_level = sol_socket; opt_name = so_dontroute }
opts_entry sockopts_type_error = record { opt_level = sol_socket; opt_name = so_error }
opts_entry sockopts_type_keepalive = record { opt_level = sol_socket; opt_name = so_keepalive }
opts_entry sockopts_type_linger = record { opt_level = sol_socket; opt_name = so_linger }
opts_entry sockopts_type_oobinline = record { opt_level = sol_socket; opt_name = so_oobinline }
opts_entry sockopts_type_rcvbuf = record { opt_level = sol_socket; opt_name = so_rcvbuf }
opts_entry sockopts_type_sndbuf = record { opt_level = sol_socket; opt_name = so_sndbuf }
opts_entry sockopts_type_rcvlowat = record { opt_level = sol_socket; opt_name = so_rcvlowat }
opts_entry sockopts_type_sndlowat = record { opt_level = sol_socket; opt_name = so_sndlowat }
opts_entry sockopts_type_rcvtimeo = record { opt_level = sol_socket; opt_name = so_rcvtimeo }
opts_entry sockopts_type_sndtimeo = record { opt_level = sol_socket; opt_name = so_sndtimeo }
opts_entry sockopts_type_reuseaddr = record { opt_level = sol_socket; opt_name = so_reuseaddr }
opts_entry sockopts_type_reuseport = record { opt_level = sol_socket; opt_name = so_reuseport }
opts_entry sockopts_type_type = record { opt_level = sol_socket; opt_name = so_type }
opts_entry sockopts_type_ip_tos = record { opt_level = ipproto_ip; opt_name = ip_tos_opt }
opts_entry sockopts_type_ip_ttl = record { opt_level = ipproto_ip; opt_name = ip_ttl_opt }
opts_entry sockopts_type_ipv6_v6only = record {
  opt_level = ipproto_ipv6;
  opt_name = ipv6_v6only_opt;
}
opts_entry sockopts_type_tcp_maxseg = record { opt_level = ipproto_tcp; opt_name = tcp_maxseg_opt }
opts_entry sockopts_type_tcp_nodelay = record {
  opt_level = ipproto_tcp;
  opt_name = tcp_nodelay_opt;
}
opts_entry sockopts_type_tcp_info = record { opt_level = ipproto_tcp; opt_name = tcp_info_opt }

-- `val {on}`, and an `int` as a `bool`.
abbrev pub int_of : Bool → ℤ
int_of true = pos 1
int_of false = pos 0

abbrev pub is_set : ℤ → Bool
is_set (pos n) = not (n == 0)
is_set (negsuc n) = true

-- `setsockopt` with a member of the union, and `getsockopt` with the size of one. A value of another
-- member is a fault.
module _ {K : Type 0} (getsockopt : ℤ → SockoptsInfo → K → Answer SockoptVal)
    (setsockopt : ℤ → SockoptsInfo → SockoptVal → K → Answer (Unit {0}) × K) where
  -- What the three setters have in common.
  unfoldable pub set_value : SockoptVal → ℤ → SockoptsInfo → K → Result (Unit {0}) × K
  set_value val h opt_info k =
      let r = setsockopt h opt_info val k in
      elim r.0 [ returned v ↦ (ok tt, r.1) | refused e ↦ (throw system_error, r.1) ]

  abbrev pub set_int : ℤ → ℤ → SockoptsInfo → K → Result (Unit {0}) × K
  set_int v = set_value (i_val v)

  abbrev pub set_flag : ℤ → ℤ → SockoptsInfo → K → Result (Unit {0}) × K
  set_flag = set_int

  abbrev pub set_linger_val : ℤ → ℤ → ℤ → SockoptsInfo → K → Result (Unit {0}) × K
  set_linger_val on t = set_value (linger_val on t)

  abbrev pub set_timeval : ℤ × ℤ → ℤ → SockoptsInfo → K → Result (Unit {0}) × K
  set_timeval t = set_value (timeval_val t.0 t.1)

  unfoldable pub get_int : ℤ → SockoptsInfo → K → Run (Result ℤ)
  get_int h opt_info k = elim (getsockopt h opt_info k) [
    | refused e ↦ done (throw system_error)
    | returned val ↦ elim val [ i_val v ↦ done (ok v) | _ ↦ fault ]
  ]

  unfoldable pub get_flag : ℤ → SockoptsInfo → K → Run (Result Bool)
  get_flag h opt_info k = elim (getsockopt h opt_info k) [
    | refused e ↦ done (throw system_error)
    | returned val ↦ elim val [ i_val v ↦ done (ok (is_set v)) | _ ↦ fault ]
  ]

  unfoldable pub get_linger : ℤ → SockoptsInfo → K → Run (Result (ℤ × ℤ))
  get_linger h opt_info k = elim (getsockopt h opt_info k) [
    | refused e ↦ done (throw system_error)
    | returned val ↦ elim val [ linger_val on t ↦ done (ok (on, t)) | _ ↦ fault ]
  ]

  unfoldable pub get_timeval : ℤ → SockoptsInfo → K → Run (Result (ℤ × ℤ))
  get_timeval h opt_info k = elim (getsockopt h opt_info k) [
    | refused e ↦ done (throw system_error)
    | returned val ↦ elim val [ timeval_val s u ↦ done (ok (s, u)) | _ ↦ fault ]
  ]
