-- ===== src/Connect/Binding.antt =====
-- `_bind_tcp` of `_connect.py`. What the system and `getaddrinfo` answer is an argument.
use zuvloop.Base.{
  ◌>>=◌, value_error, ◌>>◌, ℕ, Bool, true, false, ◌&&◌, Option, none, some, List, [], ◌∷◌, ◌++◌,
  ◌==◌, if◌then◌else◌, Result, ok, err,
}
use zuvloop.Connect.Defs.{open_socket, close_socket, Info, Files}

-- A host name, empty or not; names are numbers.
pub data Host : Type 0 where
  empty_host : Host
  named : ℕ → Host

-- The argument `host`: None, a string, or a sequence of strings.
pub data Hosts : Type 0 where
  no_host : Hosts
  one_host : Host → Hosts
  many_hosts : List Host → Hosts

-- `entry or None`
abbrev pub or_none : Host → Option ℕ
or_none empty_host = none
or_none (named name) = some name

abbrev pub entries : List Host → List (Option ℕ)
entries [] = []
entries (host ∷ hosts) = or_none host ∷ entries hosts

abbrev pub to_resolve : Hosts → List (Option ℕ)
to_resolve no_host = none ∷ []
to_resolve (one_host host) = or_none host ∷ []
to_resolve (many_hosts hosts) = entries hosts

-- The loop that resolves the hosts, with what is resolved so far.
unfoldable pub resolve :
    (Option ℕ → Result (List Info)) → List (Option ℕ) → List Info → Result (List Info)
resolve getaddrinfo [] resolved = ok resolved
resolve getaddrinfo (entry ∷ rest) resolved =
    getaddrinfo entry >>= λ infos. resolve getaddrinfo rest (resolved ++ infos)

abbrev pub same_info : Info → Info → Bool
same_info i j = i.family == j.family && i.address == j.address

abbrev pub without : Info → List Info → List Info
without i [] = []
without i (j ∷ infos) = let rest = without i infos in if same_info i j then rest else j ∷ rest

-- The keys of `dict.fromkeys`: the first of equal entries stays.
unfoldable pub fromkeys : List Info → List Info
fromkeys [] = []
fromkeys (i ∷ infos) = i ∷ without i (fromkeys infos)

pub data SocketOption : Type 0 where
  so_reuseaddr so_reuseport so_keepalive ipv6_v6only : SocketOption

-- The arguments that choose socket options, and what the platform has.
pub record Asked : Type 0 where
  pub reuse_address : Option Bool
  pub reuse_port : Bool
  pub keep_alive : Bool
  pub is_posix : Bool
  pub has_reuse_port : Bool
  pub has_ipv6 : Bool
  pub af_inet6 : ℕ

-- What the system answers for each address.
pub record System : Type 0 where
  pub socket : Info → Result (Unit {0})
  pub setsockopt : Info → SocketOption → Result (Unit {0})
  pub bind : Info → Result (Unit {0})

abbrev pub reuses_address : Asked → Bool
reuses_address asked = elim asked.reuse_address [ none ↦ asked.is_posix | some b ↦ b ]

-- `_set_reuse_port`
abbrev pub set_reuse_port : Asked → System → Info → Result (Unit {0})
set_reuse_port asked system i =
    if asked.has_reuse_port
    then system.setsockopt i so_reuseport
    else err (value_error "reuse_port not supported by socket module")

abbrev pub when : Bool → Result (Unit {0}) → Result (Unit {0})
when true r = r
when false r = ok tt

-- What the loop does to a new socket.
unfoldable pub prepare : Asked → System → Info → Result (Unit {0})
prepare asked system i =
    when (reuses_address asked) (system.setsockopt i so_reuseaddr)
    >> (when asked.reuse_port (set_reuse_port asked system i)
        >> (when asked.keep_alive (system.setsockopt i so_keepalive)
            >> (when (i.family == asked.af_inet6 && asked.has_ipv6)
                  (system.setsockopt i ipv6_v6only)
                >> system.bind i)))

-- `for sock in sockets: sock.close()`
unfoldable pub close_all : List ℕ → Files → Files
close_all [] f = f
close_all (sock ∷ socks) f = close_all socks (close_socket sock f)

abbrev pub prepared :
    Result (Unit {0}) → Result (List ℕ) × Files → List ℕ → Files → Result (List ℕ) × Files
prepared (ok _) later socks f = later
prepared (err e) later socks f = (err e, close_all socks f)

-- The loop over the addresses, with the sockets so far, inside its `try`.
unfoldable pub bind_each : Asked → System → List Info → List ℕ → Files → Result (List ℕ) × Files
bind_each asked system [] socks f = (ok socks, f)
bind_each asked system (i ∷ infos) socks f =
    let socks' = socks ++ (f.next ∷ []) in
    let later = bind_each asked system infos socks' (open_socket f) in
    prepared (system.socket i) (prepared (prepare asked system i) later socks' (open_socket f))
      socks f

abbrev pub bind_resolved : Asked → System → Result (List Info) → Files → Result (List ℕ) × Files
bind_resolved asked system (err e) f = (err e, f)
bind_resolved asked system (ok infos) f = bind_each asked system (fromkeys infos) [] f

-- `_bind_tcp`
unfoldable pub bind_tcp :
    (Option ℕ → Result (List Info)) → Asked → System → Hosts → Files → Result (List ℕ) × Files
bind_tcp getaddrinfo asked system hosts f =
    bind_resolved asked system (resolve getaddrinfo (to_resolve hosts) []) f
