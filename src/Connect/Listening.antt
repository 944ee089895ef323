-- ===== src/Connect/Listening.antt =====
-- Which sockets `_bind_tcp` leaves open, and which addresses it binds.
use zuvloop.Base.{
  has-discard_any, ◌∙◌, Bool, length-append, Below-suc, Below-lt, has-append, Below, refl, ℕ, ◌+◌,
  ◌≡◌, false, not, ◌&&◌, ◌||◌, Option, List, [], ◌∷◌, ◌++◌, arith, has, length, Result, ok, err,
  ◌>>◌, ◌==◌,
}
use zuvloop.Connect.Binding.{
  when, ipv6_v6only, so_keepalive, so_reuseaddr, set_reuse_port, reuses_address, prepare,
  to_resolve, same_info, without, bind_resolved, resolve, fromkeys, Hosts, System, Asked, prepared,
  close_all, bind_each, bind_tcp,
}
use native.Mathlib.Nat.{zero-add}
use mathlib.Core.Path.{subst}
use zuvloop.Connect.Defs.{open_socket, close_socket, Info, Files}

pub has-close_all :
    (k : ℕ) (socks : List ℕ) (f : Files)
    → has k (close_all socks f).opened ≡ (has k f.opened && not (has k socks))
unfolding close_all
has-close_all k [] f = ground arith
has-close_all k (sock ∷ socks) f =
    ground (arith, has-close_all k socks (close_socket sock f), has-discard_any k sock f.opened)

-- The sockets that a call hands out.
abbrev pub given : Result (List ℕ) → List ℕ
given (ok socks) = socks
given (err e) = []

-- A result hands out one socket for each address.
abbrev pub Matches : ℕ → Result (List ℕ) → Type 0
Matches n (ok socks) = length socks ≡ n
Matches n (err e) = Unit

-- In the loop, the open sockets are the loop's and, apart from them, those from before.
record IsBinding (k : ℕ) (base socks : List ℕ) (f : Files) : Type 0 where
  opened_are : has k f.opened ≡ (has k socks || has k base)
  apart : (has k socks && has k base) ≡ false
  low : Below f.next f.opened

next-IsBinding :
    (k : ℕ) (base socks : List ℕ) (f : Files)
    → IsBinding k base socks f
    → IsBinding k base (socks ++ (f.next ∷ [])) (open_socket f)
next-IsBinding k base socks f h = record {
  opened_are = ground (arith, h.opened_are, has-append k socks (f.next ∷ []));
  apart = ground (
    arith,
    h.opened_are,
    h.apart,
    has-append k socks (f.next ∷ []),
    Below-lt f.next k f.opened h.low,
  );
  low = (omega arith, Below-suc f.next f.opened h.low);
}

abbrev Leaves : ℕ → List ℕ → ℕ → Result (List ℕ) × Files → Type 0
Leaves k base n (r, f) =
    (has k f.opened ≡ (has k (given r) || has k base))
    × Matches n r
    × ((has k (given r) && has k base) ≡ false)

prepared-Leaves :
    (k n : ℕ) (base : List ℕ) (r : Result (Unit {0})) (later : Result (List ℕ) × Files)
    (socks : List ℕ) (f : Files)
    → IsBinding k base socks f
    → Leaves k base n later
    → Leaves k base n (prepared r later socks f)
prepared-Leaves k n base (ok u) later socks f h l = l
prepared-Leaves k n base (err e) later socks f h l =
    (ground (arith, has-close_all k socks f, h.opened_are, h.apart), tt, refl)

bind_each-Leaves :
    (asked : Asked) (system : System) (k : ℕ) (base : List ℕ) (infos : List Info) (socks : List ℕ)
    (f : Files)
    → IsBinding k base socks f
    → Leaves k base (length socks + length infos) (bind_each asked system infos socks f)
unfolding bind_each
bind_each-Leaves asked system k base [] socks f h = (h.opened_are, omega arith, h.apart)
bind_each-Leaves asked system k base (i ∷ infos) socks f h =
    let socks' = socks ++ (f.next ∷ []) in
    let later = bind_each asked system infos socks' (open_socket f) in
    let h' = next-IsBinding k base socks f h in
    let n = length socks + length (i ∷ infos) in
    let e : length socks' + length infos ≡ n = omega (arith, length-append socks (f.next ∷ [])) in
    let l = bind_each-Leaves asked system k base infos socks' (open_socket f) h' in
    let l' : Leaves k base n later = subst (λ m. Leaves k base m later) e l in
    let inner = prepared (prepare asked system i) later socks' (open_socket f) in
    prepared-Leaves k n base (system.socket i) inner socks f h
      (prepared-Leaves k n base (prepare asked system i) later socks' (open_socket f) h' l')

fresh-IsBinding : (f : Files) (k : ℕ) → Below f.next f.opened → IsBinding k f.opened [] f
fresh-IsBinding f k b = record { opened_are = refl; apart = refl; low = b }

bind_resolved-opened :
    (asked : Asked) (system : System) (resolved : Result (List Info)) (f : Files) (k : ℕ)
    → Below f.next f.opened
    → let end = bind_resolved asked system resolved f in
      has k end.1.opened ≡ (has k (given end.0) || has k f.opened)
bind_resolved-opened asked system (ok infos) f k b =
    (bind_each-Leaves asked system k f.opened (fromkeys infos) [] f (fresh-IsBinding f k b)).0
bind_resolved-opened asked system (err e) f k b = refl

-- Whatever the system answers, and for every number `k` of a socket: when `_bind_tcp` is done, `k` is open
-- exactly if it was open before or is one of the sockets that are returned, none if it raises.
pub bind_tcp_opened :
    (getaddrinfo : Option ℕ → Result (List Info)) (asked : Asked) (system : System) (hosts : Hosts)
    (f : Files) (k : ℕ)
    → Below f.next f.opened
    → let end = bind_tcp getaddrinfo asked system hosts f in
      has k end.1.opened ≡ (has k (given end.0) || has k f.opened)
unfolding bind_tcp
bind_tcp_opened getaddrinfo asked system hosts f k b =
    bind_resolved-opened asked system (resolve getaddrinfo (to_resolve hosts) []) f k b

bind_resolved-apart :
    (asked : Asked) (system : System) (resolved : Result (List Info)) (f : Files) (k : ℕ)
    → Below f.next f.opened
    → (has k (given (bind_resolved asked system resolved f).0) && has k f.opened) ≡ false
bind_resolved-apart asked system (ok infos) f k b =
    (bind_each-Leaves asked system k f.opened (fromkeys infos) [] f (fresh-IsBinding f k b)).2
bind_resolved-apart asked system (err e) f k b = refl

pub bind_tcp_apart :
    (getaddrinfo : Option ℕ → Result (List Info)) (asked : Asked) (system : System) (hosts : Hosts)
    (f : Files) (k : ℕ)
    → Below f.next f.opened
    → (has k (given (bind_tcp getaddrinfo asked system hosts f).0) && has k f.opened) ≡ false
unfolding bind_tcp
bind_tcp_apart getaddrinfo asked system hosts f k b =
    bind_resolved-apart asked system (resolve getaddrinfo (to_resolve hosts) []) f k b

abbrev pub has_info : Info → List Info → Bool
has_info i [] = false
has_info i (j ∷ infos) = same_info i j || has_info i infos

-- No address twice.
abbrev pub AllNew : List Info → Type 0
AllNew [] = Unit
AllNew (i ∷ infos) = (has_info i infos ≡ false) × AllNew infos

has_info-without :
    (i j : Info) (infos : List Info)
    → has_info i (without j infos) ≡ (has_info i infos && not (same_info i j))
has_info-without i j [] = refl
has_info-without i j (l ∷ infos) = ground (arith, has_info-without i j infos)

AllNew-without : (j : Info) (infos : List Info) → AllNew infos → AllNew (without j infos)
AllNew-without j [] n = tt
AllNew-without j (l ∷ infos) n = ground (arith, AllNew-without j infos, has_info-without l j infos)

has_info-fromkeys : (i : Info) (infos : List Info) → has_info i (fromkeys infos) ≡ has_info i infos
unfolding fromkeys
has_info-fromkeys i [] = refl
has_info-fromkeys i (j ∷ infos) =
    ground (arith, has_info-fromkeys i infos, has_info-without i j (fromkeys infos))

fromkeys-AllNew : (infos : List Info) → AllNew (fromkeys infos)
unfolding fromkeys
fromkeys-AllNew [] = tt
fromkeys-AllNew (i ∷ infos) =
    let new : has_info i (without i (fromkeys infos)) ≡ false =
      has_info-without i i (fromkeys infos) ∙ ground arith in
    (new, AllNew-without i (fromkeys infos) (fromkeys-AllNew infos))

bind_resolved-Matches :
    (asked : Asked) (system : System) (resolved : Result (List Info)) (infos : List Info)
    (f : Files)
    → Below f.next f.opened
    → resolved ≡ ok infos
    → Matches (length (fromkeys infos)) (bind_resolved asked system resolved f).0
bind_resolved-Matches asked system (err e) infos f b h = cc
bind_resolved-Matches asked system (ok infos') infos f b h =
    let same : infos' ≡ infos = ground arith in
    let count : Matches (length (fromkeys infos')) (bind_resolved asked system (ok infos') f).0 =
      subst (λ n. Matches n (bind_resolved asked system (ok infos') f).0)
        (zero-add (length (fromkeys infos')))
        (bind_each-Leaves asked system 0 f.opened (fromkeys infos') [] f
          (fresh-IsBinding f 0 b)).1 in
    subst (λ l. Matches (length (fromkeys l)) (bind_resolved asked system (ok infos') f).0) same
      count

-- Of each address a socket could be made and was bound.
abbrev pub AllBound : System → List Info → Type 0
AllBound system [] = Unit
AllBound system (i ∷ infos) =
    (system.socket i ≡ ok tt) × (system.bind i ≡ ok tt) × AllBound system infos

-- A call that returns has bound all these addresses.
abbrev pub Binds : System → List Info → Result (List ℕ) → Type 0
Binds system infos (ok socks) = AllBound system infos
Binds system infos (err e) = Unit

then_bound : (r s : Result (Unit {0})) → (r >> s) ≡ ok tt → s ≡ ok tt
then_bound (ok _) s h = h
then_bound (err e) s h = cc

prepare-bound :
    (asked : Asked) (system : System) (i : Info)
    → prepare asked system i ≡ ok tt
    → system.bind i ≡ ok tt
unfolding prepare
prepare-bound asked system i h =
    let v6 =
      when (i.family == asked.af_inet6 && asked.has_ipv6) (system.setsockopt i ipv6_v6only) in
    let alive = when asked.keep_alive (system.setsockopt i so_keepalive) in
    let port = when asked.reuse_port (set_reuse_port asked system i) in
    let address = when (reuses_address asked) (system.setsockopt i so_reuseaddr) in
    then_bound v6 (system.bind i) (
      then_bound alive (v6 >> system.bind i) (
        then_bound port (alive >> (v6 >> system.bind i))
          (then_bound address (port >> (alive >> (v6 >> system.bind i))) h)))

prepared-Binds :
    (system : System) (i : Info) (infos : List Info) (made ready : Result (Unit {0}))
    (later : Result (List ℕ) × Files) (socks socks' : List ℕ) (f f' : Files)
    → system.socket i ≡ made
    → (ready ≡ ok tt → system.bind i ≡ ok tt)
    → Binds system infos later.0
    → Binds system (i ∷ infos) (prepared made (prepared ready later socks' f') socks f).0
prepared-Binds system i infos (err e) ready later socks socks' f f' m b h = tt
prepared-Binds system i infos (ok _) (err e) later socks socks' f f' m b h = tt
prepared-Binds system i infos (ok _) (ok _) (err e, g) socks socks' f f' m b h = tt
prepared-Binds system i infos (ok _) (ok _) (ok l, g) socks socks' f f' m b h = (m, b refl, h)

bind_each-Binds :
    (asked : Asked) (system : System) (infos : List Info) (socks : List ℕ) (f : Files)
    → Binds system infos (bind_each asked system infos socks f).0
unfolding bind_each
bind_each-Binds asked system [] socks f = tt
bind_each-Binds asked system (i ∷ infos) socks f =
    let socks' = socks ++ (f.next ∷ []) in
    prepared-Binds system i infos (system.socket i) (prepare asked system i)
      (bind_each asked system infos socks' (open_socket f)) socks socks' f (open_socket f) refl
      (prepare-bound asked system i) (bind_each-Binds asked system infos socks' (open_socket f))

-- When the hosts resolve to some addresses: if `_bind_tcp` returns, then one socket for each address of a list in
-- which none comes twice and which has the same members, whatever address is asked for, and for
-- each of them `socket` and `bind` succeeded.
pub bind_tcp_distinct :
    (getaddrinfo : Option ℕ → Result (List Info)) (asked : Asked) (system : System) (hosts : Hosts)
    (infos : List Info) (i : Info) (f : Files)
    → Below f.next f.opened
    → resolve getaddrinfo (to_resolve hosts) [] ≡ ok infos
    → AllNew (fromkeys infos)
      × (has_info i (fromkeys infos) ≡ has_info i infos)
      × Matches (length (fromkeys infos)) (bind_tcp getaddrinfo asked system hosts f).0
      × Binds system (fromkeys infos) (bind_tcp getaddrinfo asked system hosts f).0
unfolding bind_tcp
bind_tcp_distinct getaddrinfo asked system hosts infos i f b h = (
  fromkeys-AllNew infos,
  has_info-fromkeys i infos,
  bind_resolved-Matches asked system (resolve getaddrinfo (to_resolve hosts) []) infos f b h,
  rw h (bind_each-Binds asked system (fromkeys infos) [] f),
)
