-- ===== src/Connect/Subprocess.antt =====
-- `subprocess_shell`, `subprocess_exec` and `_SubprocessTransport.send_signal` of `_connect.py`.
use zuvloop.Base.{
  ◌>>◌, is_exit, os_error, process_lookup, raise_if, value_error, type_error, ℕ, Bool, true, false,
  not, Option, none, some, List, [], ◌∷◌, ◌==◌, is_some, Exception, Result, ok, err,
}

-- The arguments of a text mode; an encoding and the handling of its errors are numbers.
pub record TextMode : Type 0 where
  pub universal_newlines : Bool
  pub shell : Bool
  pub bufsize : ℕ
  pub encoding : Option ℕ
  pub errors : Option ℕ
  pub text : Bool

abbrev pub same_bool : Bool → Bool → Bool
same_bool true b = b
same_bool false b = not b

-- `_check_subprocess_text`
unfoldable pub check_subprocess_text : TextMode → Bool → Result (Unit {0})
check_subprocess_text mode expect_shell =
    raise_if mode.universal_newlines (value_error "universal_newlines must be False")
    >> (raise_if (not (same_bool mode.shell expect_shell)) (value_error "shell must be as expected")
        >> (raise_if (not (mode.bufsize == 0)) (value_error "bufsize must be 0")
            >> (raise_if mode.text (value_error "text must be False")
                >> (raise_if (is_some mode.encoding) (value_error "encoding must be None")
                    >> raise_if (is_some mode.errors) (value_error "errors must be None")))))

-- How the transport of a child stands when the call ends.
pub data Standing : Type 0 where
  never_made living was_closed : Standing

-- What the call meets: `factory` says whether the protocol is one of subprocesses, `construct` is the answer of
-- the transport's constructor, `ready` that of the waiter, and `wait` that of `transport._wait()`.
pub record Spawn : Type 0 where
  pub factory : Result Bool
  pub construct : Result (Unit {0})
  pub ready : Result (Unit {0})
  pub wait : Result (Unit {0})

-- The `except` clauses round the waiter; waiting can raise itself.
abbrev pub waited : Exception → Result (Unit {0}) → Result (Unit {0}) × Standing
waited e (ok _) = (err e, was_closed)
waited e (err e') = (err e', was_closed)

abbrev pub raised_by : Bool → Exception → Result (Unit {0}) → Result (Unit {0}) × Standing
raised_by true e wait = (err e, living)
raised_by false e wait = waited e wait

abbrev pub settled : Spawn → Result (Unit {0}) → Result (Unit {0}) × Standing
settled w (ok _) = (ok tt, living)
settled w (err e) = raised_by (is_exit e) e w.wait

abbrev pub constructed : Spawn → Result (Unit {0}) → Result (Unit {0}) × Standing
constructed w (err e) = (err e, never_made)
constructed w (ok _) = settled w w.ready

-- `_make_subprocess_transport`
unfoldable pub make_subprocess_transport : Spawn → Result Bool → Result (Unit {0}) × Standing
make_subprocess_transport w (err e) = (err e, never_made)
make_subprocess_transport w (ok false) =
    (err (type_error "protocol_factory must return a subprocess protocol"), never_made)
make_subprocess_transport w (ok true) = constructed w w.construct

abbrev pub spawned_if : Result (Unit {0}) → Spawn → Result (Unit {0}) × Standing
spawned_if (err e) w = (err e, never_made)
spawned_if (ok _) w = make_subprocess_transport w w.factory

-- `subprocess_shell`; the flag says that the command is a string.
unfoldable pub subprocess_shell : Bool → TextMode → Spawn → Result (Unit {0}) × Standing
subprocess_shell is_string mode w =
    spawned_if
      (raise_if (not is_string) (value_error "cmd must be a string")
        >> check_subprocess_text mode true)
      w

abbrev pub check_program : List Bool → Result (Unit {0})
check_program [] = ok tt
check_program (is_string ∷ args) =
    raise_if (not is_string) (type_error "program arguments must be a bytes or text string")
    >> check_program args

-- `subprocess_exec`; the flags say which of the program and its arguments are strings.
unfoldable pub subprocess_exec : List Bool → TextMode → Spawn → Result (Unit {0}) × Standing
subprocess_exec args mode w = spawned_if (check_subprocess_text mode false >> check_program args) w

-- The `except ProcessLookupError` of `send_signal`.
abbrev pub unless_gone : Result (Unit {0}) → Result (Unit {0})
unless_gone (ok _) = ok tt
unless_gone (err (os_error process_lookup number)) = ok tt
unless_gone (err e) = err e

-- `send_signal`: what `_check_proc` and the process answer counts only while there is no return code.
unfoldable pub send_signal : Option ℕ → Result (Unit {0}) → Result (Unit {0}) → Result (Unit {0})
send_signal (some returncode) check_proc signal = ok tt
send_signal none check_proc signal = check_proc >> unless_gone signal
