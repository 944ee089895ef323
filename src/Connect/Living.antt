-- ===== src/Connect/Living.antt =====
-- What the calls that start a child leave behind.
use zuvloop.Connect.Subprocess.{
  raised_by, check_program, check_subprocess_text, subprocess_exec, make_subprocess_transport,
  waited, settled, subprocess_shell, spawned_if, constructed, TextMode, Spawn, Standing, never_made,
  living, was_closed,
}
use zuvloop.Base.{
  ◌>>◌, value_error, not, raise_if, is_exit, refl, ◌≡◌, Bool, true, false, List, Exception, Result,
  ok, err,
}

-- A child that lives behind a call that raised can only be one that an exit of the program interrupted.
abbrev pub IsLiving : Result (Unit {0}) × Standing → Type 0
IsLiving (ok u, t) = t ≡ living
IsLiving (err e, never_made) = Unit
IsLiving (err e, was_closed) = Unit
IsLiving (err e, living) = is_exit e ≡ true

waited-IsLiving : (e : Exception) (wait : Result (Unit {0})) → IsLiving (waited e wait)
waited-IsLiving e (ok u) = tt
waited-IsLiving e (err e') = tt

raised_by-IsLiving :
    (b : Bool) (e : Exception) (wait : Result (Unit {0}))
    → is_exit e ≡ b
    → IsLiving (raised_by b e wait)
raised_by-IsLiving true e wait h = h
raised_by-IsLiving false e wait h = waited-IsLiving e wait

settled-IsLiving : (w : Spawn) (ready : Result (Unit {0})) → IsLiving (settled w ready)
settled-IsLiving w (ok u) = refl
settled-IsLiving w (err e) = raised_by-IsLiving (is_exit e) e w.wait refl

constructed-IsLiving :
    (w : Spawn) (construct : Result (Unit {0})) → IsLiving (constructed w construct)
constructed-IsLiving w (ok u) = settled-IsLiving w w.ready
constructed-IsLiving w (err e) = tt

make-IsLiving : (w : Spawn) (factory : Result Bool) → IsLiving (make_subprocess_transport w factory)
unfolding make_subprocess_transport
make-IsLiving w (ok true) = constructed-IsLiving w w.construct
make-IsLiving w (ok false) = tt
make-IsLiving w (err e) = tt

spawned_if-IsLiving : (check : Result (Unit {0})) (w : Spawn) → IsLiving (spawned_if check w)
spawned_if-IsLiving (ok u) w = make-IsLiving w w.factory
spawned_if-IsLiving (err e) w = tt

-- If `subprocess_shell` or `subprocess_exec` returns, the child's transport lives; if it raises, there never was
-- one, or it was closed, unless what is raised is SystemExit or KeyboardInterrupt.
pub subprocess-IsLiving :
    (is_string : Bool) (args : List Bool) (mode : TextMode) (w : Spawn)
    → IsLiving (subprocess_shell is_string mode w) × IsLiving (subprocess_exec args mode w)
unfolding subprocess_shell subprocess_exec
subprocess-IsLiving is_string args mode w = (
  spawned_if-IsLiving
      (raise_if (not is_string) (value_error "cmd must be a string")
        >> check_subprocess_text mode true)
      w,
  spawned_if-IsLiving (check_subprocess_text mode false >> check_program args) w,
)
