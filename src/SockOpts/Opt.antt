-- ===== src/SockOpts/Opt.antt =====
-- The options that can be set and read, and what is documented of them.
use libkngin.Base.{◌≡◌, refl, Bool}
use libkngin.Base.Int.{ℤ}
use libkngin.SockOpts.{Level, OptName, SockoptsInfo, SockoptsType, opts_entry, int_of}

-- The options with a setter and a getter.
pub data Opt : Type 0 where
  broadcast : Opt
  debug : Opt
  nonroute : Opt
  keepalive : Opt
  linger : Opt
  oob_inline : Opt
  rcvbuf : Opt
  sndbuf : Opt
  rcvlowat : Opt
  sndlowat : Opt
  rcvtimeo : Opt
  sndtimeo : Opt
  reuseaddr : Opt
  reuseport : Opt
  ip_tos : Opt
  ip_ttl : Opt
  ipv6_only : Opt
  maxseg : Opt
  nodelay : Opt

-- What an option is set to.
abbrev pub Val : Opt → Type 0
Val broadcast = Bool
Val debug = Bool
Val nonroute = Bool
Val keepalive = Bool
Val linger = Bool × ℤ
Val oob_inline = Bool
Val rcvbuf = ℤ
Val sndbuf = ℤ
Val rcvlowat = ℤ
Val sndlowat = ℤ
Val rcvtimeo = ℤ × ℤ
Val sndtimeo = ℤ × ℤ
Val reuseaddr = Bool
Val reuseport = Bool
Val ip_tos = ℤ
Val ip_ttl = ℤ
Val ipv6_only = Bool
Val maxseg = ℤ
Val nodelay = Bool

-- What its getter returns.
abbrev pub Got : Opt → Type 0
Got broadcast = Bool
Got debug = Bool
Got nonroute = Bool
Got keepalive = Bool
Got linger = ℤ × ℤ
Got oob_inline = Bool
Got rcvbuf = ℤ
Got sndbuf = ℤ
Got rcvlowat = ℤ
Got sndlowat = ℤ
Got rcvtimeo = ℤ × ℤ
Got sndtimeo = ℤ × ℤ
Got reuseaddr = Bool
Got reuseport = Bool
Got ip_tos = ℤ
Got ip_ttl = ℤ
Got ipv6_only = Bool
Got maxseg = ℤ
Got nodelay = Bool

-- The value read back: the `l_onoff` of a `linger` is an `int`.
abbrev pub read_back : (o : Opt) → Val o → Got o
read_back broadcast v = v
read_back debug v = v
read_back nonroute v = v
read_back keepalive v = v
read_back linger v = (int_of v.0, v.1)
read_back oob_inline v = v
read_back rcvbuf v = v
read_back sndbuf v = v
read_back rcvlowat v = v
read_back sndlowat v = v
read_back rcvtimeo v = v
read_back sndtimeo v = v
read_back reuseaddr v = v
read_back reuseport v = v
read_back ip_tos v = v
read_back ip_ttl v = v
read_back ipv6_only v = v
read_back maxseg v = v
read_back nodelay v = v

abbrev pub entry_of : Opt → SockoptsType
entry_of broadcast = SockoptsType.sockopts_type_broadcast
entry_of debug = SockoptsType.sockopts_type_debug
entry_of nonroute = SockoptsType.sockopts_type_dontroute
entry_of keepalive = SockoptsType.sockopts_type_keepalive
entry_of linger = SockoptsType.sockopts_type_linger
entry_of oob_inline = SockoptsType.sockopts_type_oobinline
entry_of rcvbuf = SockoptsType.sockopts_type_rcvbuf
entry_of sndbuf = SockoptsType.sockopts_type_sndbuf
entry_of rcvlowat = SockoptsType.sockopts_type_rcvlowat
entry_of sndlowat = SockoptsType.sockopts_type_sndlowat
entry_of rcvtimeo = SockoptsType.sockopts_type_rcvtimeo
entry_of sndtimeo = SockoptsType.sockopts_type_sndtimeo
entry_of reuseaddr = SockoptsType.sockopts_type_reuseaddr
entry_of reuseport = SockoptsType.sockopts_type_reuseport
entry_of ip_tos = SockoptsType.sockopts_type_ip_tos
entry_of ip_ttl = SockoptsType.sockopts_type_ip_ttl
entry_of ipv6_only = SockoptsType.sockopts_type_ipv6_v6only
entry_of maxseg = SockoptsType.sockopts_type_tcp_maxseg
entry_of nodelay = SockoptsType.sockopts_type_tcp_nodelay

-- The level and the constant of each option, as socket(7), ip(7), ipv6(7) and tcp(7) give them.
abbrev pub documented : Opt → SockoptsInfo
documented broadcast = record { opt_level = Level.sol_socket; opt_name = OptName.so_broadcast }
documented debug = record { opt_level = Level.sol_socket; opt_name = OptName.so_debug }
documented nonroute = record { opt_level = Level.sol_socket; opt_name = OptName.so_dontroute }
documented keepalive = record { opt_level = Level.sol_socket; opt_name = OptName.so_keepalive }
documented linger = record { opt_level = Level.sol_socket; opt_name = OptName.so_linger }
documented oob_inline = record { opt_level = Level.sol_socket; opt_name = OptName.so_oobinline }
documented rcvbuf = record { opt_level = Level.sol_socket; opt_name = OptName.so_rcvbuf }
documented sndbuf = record { opt_level = Level.sol_socket; opt_name = OptName.so_sndbuf }
documented rcvlowat = record { opt_level = Level.sol_socket; opt_name = OptName.so_rcvlowat }
documented sndlowat = record { opt_level = Level.sol_socket; opt_name = OptName.so_sndlowat }
documented rcvtimeo = record { opt_level = Level.sol_socket; opt_name = OptName.so_rcvtimeo }
documented sndtimeo = record { opt_level = Level.sol_socket; opt_name = OptName.so_sndtimeo }
documented reuseaddr = record { opt_level = Level.sol_socket; opt_name = OptName.so_reuseaddr }
documented reuseport = record { opt_level = Level.sol_socket; opt_name = OptName.so_reuseport }
documented ip_tos = record { opt_level = Level.ipproto_ip; opt_name = OptName.ip_tos_opt }
documented ip_ttl = record { opt_level = Level.ipproto_ip; opt_name = OptName.ip_ttl_opt }
documented ipv6_only = record { opt_level = Level.ipproto_ipv6; opt_name = OptName.ipv6_v6only_opt }
documented maxseg = record { opt_level = Level.ipproto_tcp; opt_name = OptName.tcp_maxseg_opt }
documented nodelay = record { opt_level = Level.ipproto_tcp; opt_name = OptName.tcp_nodelay_opt }

pub entry-documented : (o : Opt) → opts_entry (entry_of o) ≡ documented o
unfolding opts_entry
entry-documented broadcast = refl
entry-documented debug = refl
entry-documented nonroute = refl
entry-documented keepalive = refl
entry-documented linger = refl
entry-documented oob_inline = refl
entry-documented rcvbuf = refl
entry-documented sndbuf = refl
entry-documented rcvlowat = refl
entry-documented sndlowat = refl
entry-documented rcvtimeo = refl
entry-documented sndtimeo = refl
entry-documented reuseaddr = refl
entry-documented reuseport = refl
entry-documented ip_tos = refl
entry-documented ip_ttl = refl
entry-documented ipv6_only = refl
entry-documented maxseg = refl
entry-documented nodelay = refl
