-- ===== src/Base/Exceptions.antt =====
-- Python's exceptions, as far as the code tells them apart, and calls that raise.
use Prim.Native.Nat.{ℕ}
use Prim.Native.String.{String}
use mathlib.Core.Bool.{Bool, true, false}

-- The subclasses of `OSError` that the code names.
pub data OsKind : Type 0 where
  plain blocking_io interrupted connection timeout file_not_found file_exists process_lookup :
      OsKind

-- `os_error` carries its class and its `errno`. The last three are no subclasses of `Exception`.
pub data Exception : Type 0 where
  os_error : OsKind → ℕ → Exception
  value_error type_error runtime_error attribute_error not_implemented : String → Exception
  sendfile_not_available : Exception
  other : ℕ → Exception
  cancelled system_exit keyboard_interrupt : Exception

pub data Result {ℓ} (A : Type ℓ) : Type ℓ where
  ok : A → Result A
  err : Exception → Result A

-- `except BlockingIOError, InterruptedError`
abbrev pub is_not_ready : Exception → Bool
is_not_ready (os_error blocking_io _) = true
is_not_ready (os_error interrupted _) = true
is_not_ready _ = false

-- `except OSError`
abbrev pub is_os_error : Exception → Bool
is_os_error (os_error _ _) = true
is_os_error _ = false

-- `except SystemExit, KeyboardInterrupt`
abbrev pub is_exit : Exception → Bool
is_exit system_exit = true
is_exit keyboard_interrupt = true
is_exit _ = false

-- `isinstance(exc, Exception)`
abbrev pub is_exception : Exception → Bool
is_exception cancelled = false
is_exception system_exit = false
is_exception keyboard_interrupt = false
is_exception _ = true

-- A call that raises ends the block.
infixl 5 ◌>>=◌ ◌>>◌
abbrev pub ◌>>=◌ {ℓ κ} : {A : Type ℓ} {B : Type κ} → Result A → (A → Result B) → Result B
m >>= next = elim m [ ok a ↦ next a | err e ↦ err e ]

abbrev pub ◌>>◌ {ℓ κ} : {A : Type ℓ} {B : Type κ} → Result A → Result B → Result B
first >> second = elim first [ ok _ ↦ second | err e ↦ err e ]

-- `if test: raise e`
abbrev pub raise_if : Bool → Exception → Result (Unit {0})
raise_if test e = elim test [ true ↦ err e | false ↦ ok tt ]
