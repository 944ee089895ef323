-- ===== src/Sockets/Watching.antt =====
-- Which call's watcher is registered, in any interleaving of calls.
use zuvloop.Sockets.Defs.{update, unwatch, Watchers, watch, same_side}
use zuvloop.Base.{true, false, none, Option, arith, ℕ, ◌≡◌, Bool, ◌&&◌, some, List, [], ◌∷◌, ◌==◌}

-- What the calls on descriptors do, in the order in which the event loop runs them.
pub data Event : Type 0 where
  watches : ℕ → Bool → Event
  unwatches : ℕ → Bool → ℕ → Event

pub apply : Event → Watchers → Watchers
apply (watches fd write) s = (watch fd write s).1
apply (unwatches fd write token) s = unwatch fd write token s

pub run : List Event → Watchers → Watchers
run [] s = s
run (e ∷ es) s = run es (apply e s)

-- None of the events is a new watcher on the same descriptor and direction, nor the clean-up of the
-- call with this token.
abbrev pub Leaves : ℕ → Bool → ℕ → Event → Type 0
Leaves fd write token (watches fd' write') = (fd == fd' && same_side write write') ≡ false
Leaves fd write token (unwatches fd' write' token') =
    (fd == fd' && same_side write write' && token == token') ≡ false

abbrev pub AllLeave : ℕ → Bool → ℕ → List Event → Type 0
AllLeave fd write token [] = Unit
AllLeave fd write token (e ∷ es) = Leaves fd write token e × AllLeave fd write token es

unwatch-Leaves :
    (fd fd' : ℕ) (write write' : Bool) (token token' : ℕ) (s : Watchers)
    → Leaves fd write token (unwatches fd' write' token')
    → s.owner fd write ≡ some token
    → s.registered fd write ≡ some token
    → ((unwatch fd' write' token' s).owner fd write ≡ some token)
      × ((unwatch fd' write' token' s).registered fd write ≡ some token)
unfolding unwatch
unwatch-Leaves fd fd' true true token token' s l o r = ground arith
unwatch-Leaves fd fd' true false token token' s l o r = ground arith
unwatch-Leaves fd fd' false true token token' s l o r = ground arith
unwatch-Leaves fd fd' false false token token' s l o r = ground arith

apply-Leaves :
    (fd : ℕ) (write : Bool) (token : ℕ) (e : Event) (s : Watchers)
    → Leaves fd write token e
    → s.owner fd write ≡ some token
    → s.registered fd write ≡ some token
    → ((apply e s).owner fd write ≡ some token) × ((apply e s).registered fd write ≡ some token)
unfolding apply watch unwatch
apply-Leaves fd write token (watches fd' write') s l o r = ground arith
apply-Leaves fd write token (unwatches fd' write' token') s l o r =
    unwatch-Leaves fd fd' write write' token token' s l o r

run-Leaves :
    (fd : ℕ) (write : Bool) (token : ℕ) (es : List Event) (s : Watchers)
    → AllLeave fd write token es
    → s.owner fd write ≡ some token
    → s.registered fd write ≡ some token
    → ((run es s).owner fd write ≡ some token) × ((run es s).registered fd write ≡ some token)
unfolding run
run-Leaves fd write token [] s l o r = (o, r)
run-Leaves fd write token (e ∷ es) s l o r =
    let (o', r') = apply-Leaves fd write token e s l.0 o r in
    run-Leaves fd write token es (apply e s) l.1 o' r'

update_self :
    (f : ℕ → Bool → Option ℕ) (fd : ℕ) (write : Bool) (v : Option ℕ)
    → update f fd write v fd write ≡ v
update_self f fd true v = ground arith
update_self f fd false v = ground arith

unwatch-own :
    (fd : ℕ) (write : Bool) (token : ℕ) (s : Watchers)
    → s.owner fd write ≡ some token
    → (unwatch fd write token s).registered fd write ≡ none
unfolding unwatch
unwatch-own fd true token s o = ground arith
unwatch-own fd false token s o = ground arith

-- A call that starts to watch a descriptor in one direction keeps its callback registered through any
-- events that neither start another watcher on the same side nor are the call's own clean-up, also the
-- late clean-ups of earlier calls on that side; its own clean-up then takes the callback off.
pub watch_holds :
    (fd : ℕ) (write : Bool) (es : List Event) (s : Watchers)
    → AllLeave fd write (watch fd write s).0 es
    → let token = (watch fd write s).0 in
      let s' = run es (watch fd write s).1 in
      (s'.registered fd write ≡ some token)
      × ((unwatch fd write token s').registered fd write ≡ none)
unfolding watch
watch_holds fd write es s l =
    let token = s.next_token in
    let s' = (watch fd write s).1 in
    let (o, r) =
      run-Leaves fd write token es s' l (update_self s.owner fd write (some token))
        (update_self s.registered fd write (some token)) in
    (r, unwatch-own fd write token (run es s') o)
