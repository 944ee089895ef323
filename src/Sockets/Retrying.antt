-- ===== src/Sockets/Retrying.antt =====
-- What an operation's caller gets, and what `sock_sendall` has handed to the system.
use zuvloop.Base.{
  take-add, take-all, inr, inl, ◌<◌, ltb, Bool-cases, length, arith, ltb→lt, ◌∙◌, ap, ◌+◌, ◌-◌,
  drop, take, ◌≤◌, ℕ, Exception, refl, ◌≡◌, true, false, List, [], ◌∷◌, ◌++◌, Result, ok, err,
  is_not_ready, is_os_error,
}
use zuvloop.Sockets.Defs.{
  failed, waiting, sent_all, sock_sendall, Sending, sendall_from, tried, called_back, settled,
  pending, retry_ready, awaken, attempt,
}
use mathlib.Core.Path.{subst}

-- An answer that the loop waits out.
abbrev pub IsNotReady {ℓ} : {A : Type ℓ} → Result A → Type 0
IsNotReady (ok _) = ⊥
IsNotReady (err e) = is_not_ready e ≡ true

abbrev pub AllNotReady {ℓ} : {A : Type ℓ} → List (Result A) → Type 0
AllNotReady [] = Unit
AllNotReady (r ∷ rs) = IsNotReady r × AllNotReady rs

-- An answer that `_attempt` does not catch: no result, no `OSError`.
abbrev pub IsForeign {ℓ} : {A : Type ℓ} → Result A → Type 0
IsForeign (ok _) = ⊥
IsForeign (err e) = (is_not_ready e ≡ false) × (is_os_error e ≡ false)

abbrev pub AllForeign {ℓ} : {A : Type ℓ} → List (Result A) → Type 0
AllForeign [] = Unit
AllForeign (r ∷ rs) = IsForeign r × AllForeign rs

-- An answer that settles a call: a result, or an `OSError` other than the two of `IsNotReady`.
abbrev pub IsFinal {ℓ} : {A : Type ℓ} → Result A → Type 0
IsFinal (ok _) = Unit
IsFinal (err e) = (is_not_ready e ≡ false) × (is_os_error e ≡ true)

module _ {ℓ} {A : Type ℓ} where
  attempt_final : (r : Result A) → IsFinal r → attempt pending r ≡ (ok true, settled r)
  unfolding attempt
  attempt_final (ok a) f = refl
  attempt_final (err e) f = rw (f.0, f.1) refl

  attempt_not_ready : (r : Result A) → IsNotReady r → attempt pending r ≡ (ok false, pending)
  unfolding attempt
  attempt_not_ready (ok a) f = absurd f
  attempt_not_ready (err e) f = rw f refl

  attempt_foreign :
      (e : Exception)
      → IsForeign {A = A} (err e)
      → attempt {A = A} pending (err e) ≡ (err e, pending)
  unfolding attempt
  attempt_foreign e f = rw (f.0, f.1) refl

  awaken_first :
      (waits : List (Result A)) (r : Result A) (later : List (Result A))
      → AllNotReady waits
      → IsFinal r
      → awaken (waits ++ (r ∷ later)) ≡ settled r
  unfolding awaken
  awaken_first [] r later w f = ap (λ p. called_back p (awaken later)) (attempt_final r f)
  awaken_first (x ∷ waits) r later w f =
      ap (λ p. called_back p (awaken (waits ++ (r ∷ later)))) (attempt_not_ready x w.0)
      ∙ awaken_first waits r later w.1 f

  -- However often the descriptor is not ready, the call ends with the first final answer, and makes no
  -- attempt after it.
  pub retry_ready_first :
      (waits : List (Result A)) (r : Result A) (later : List (Result A))
      → AllNotReady waits
      → IsFinal r
      → retry_ready (waits ++ (r ∷ later)) ≡ settled r
  unfolding retry_ready
  retry_ready_first [] r later w f = ap (λ p. tried p (awaken later)) (attempt_final r f)
  retry_ready_first (x ∷ waits) r later w f =
      ap (λ p. tried p (awaken (waits ++ (r ∷ later)))) (attempt_not_ready x w.0)
      ∙ awaken_first waits r later w.1 f

  awaken_foreign : (answers : List (Result A)) → AllForeign answers → awaken answers ≡ pending
  unfolding awaken
  awaken_foreign [] f = refl
  awaken_foreign (ok a ∷ answers) f = absurd f.0
  awaken_foreign (err e ∷ answers) f =
      ap (λ p. called_back p (awaken answers)) (attempt_foreign e f.0) ∙ awaken_foreign answers f.1

  -- An exception other than an `OSError` reaches the caller if the first attempt raises it. Once the call
  -- waits for the descriptor, any number of such exceptions leaves it waiting.
  pub retry_ready_foreign :
      (waits : Result A) (e : Exception) (answers : List (Result A))
      → IsNotReady waits
      → IsForeign {A = A} (err e)
      → AllForeign answers
      → (retry_ready {A = A} (err e ∷ answers) ≡ settled (err e))
        × (retry_ready (waits ∷ err e ∷ answers) ≡ pending)
  unfolding retry_ready
  retry_ready_foreign waits e answers w f fs = (
    ap (λ p. tried p (awaken answers)) (attempt_foreign e f),
    ap (λ p. tried p (awaken (err e ∷ answers))) (attempt_not_ready waits w)
        ∙ awaken_foreign (err e ∷ answers) (f, fs),
  )

-- No answer is more than what is left, and together they are all of it before any exception.
abbrev pub Delivers : ℕ → List (Result ℕ) → Type 0
Delivers room [] = room ≡ 0
Delivers room (ok n ∷ answers) = (n ≤ room) × Delivers (room - n) answers
Delivers room (err e ∷ answers) = room ≡ 0

-- The bytes handed to the system are the first so many of the data, and all of them on success.
abbrev pub IsPrefix : List ℕ → Sending → Type 0
IsPrefix view (waiting wire) = (n : ℕ) × (n < length view) × (wire ≡ take n view)
IsPrefix view (failed e wire) = (n : ℕ) × (n < length view) × (wire ≡ take n view)
IsPrefix view (sent_all wire) = wire ≡ view

sendall_from-IsPrefix :
    (view wire : List ℕ) (sent : ℕ) (answers : List (Result ℕ))
    → wire ≡ take sent view
    → IsPrefix view (sendall_from view sent wire answers)
unfolding sendall_from
sendall_from-IsPrefix view wire sent [] h = elim (Bool-cases (ltb sent (length view))) [
  | inl more ↦ rw more (sent, ltb→lt sent (length view) more, h)
  | inr over ↦ rw over (h ∙ take-all sent view (ground arith))
]
sendall_from-IsPrefix view wire sent (err e ∷ answers) h =
    elim (Bool-cases (ltb sent (length view))) [
      | inl more ↦ rw more (sent, ltb→lt sent (length view) more, h)
      | inr over ↦ rw over (h ∙ take-all sent view (ground arith))
    ]
sendall_from-IsPrefix view wire sent (ok n ∷ answers) h =
    elim (Bool-cases (ltb sent (length view))) [
      | inl more ↦
          let wire' = wire ++ take n (drop sent view) in
          rw more (
            sendall_from-IsPrefix view wire' (sent + n) answers
              (ap (λ (w : List ℕ). w ++ take n (drop sent view)) h ∙ take-add sent n view))
      | inr over ↦ rw over (h ∙ take-all sent view (ground arith))
    ]

sendall_from-Delivers :
    (view wire : List ℕ) (sent : ℕ) (answers : List (Result ℕ))
    → sent ≤ length view
    → Delivers (length view - sent) answers
    → (w : List ℕ) × (sendall_from view sent wire answers ≡ sent_all w)
unfolding sendall_from
sendall_from-Delivers view wire sent [] b d = (wire, ground arith)
sendall_from-Delivers view wire sent (err e ∷ answers) b d = (wire, ground arith)
sendall_from-Delivers view wire sent (ok n ∷ answers) b d =
    let e : length view - sent - n ≡ length view - (sent + n) = omega arith in
    let rest =
      sendall_from-Delivers view (wire ++ take n (drop sent view)) (sent + n) answers
        (omega (arith, d.0)) (subst (λ (k : ℕ). Delivers k answers) e d.1) in
    elim (Bool-cases (ltb sent (length view))) [
      | inl more ↦ rw more rest
      | inr over ↦ rw over (wire, refl)
    ]

-- Whatever `send` answers, what has reached the system is the beginning of the data, in order and with
-- no byte twice: a proper beginning while the call waits or when it fails, and all of it when it returns.
pub sock_sendall-IsPrefix :
    (view : List ℕ) (answers : List (Result ℕ)) → IsPrefix view (sock_sendall view answers)
unfolding sock_sendall
sock_sendall-IsPrefix view answers = sendall_from-IsPrefix view [] 0 answers refl

prefix_of_sent :
    (view : List ℕ) (r : Sending) (w : List ℕ) → r ≡ sent_all w → IsPrefix view r → w ≡ view
prefix_of_sent view r w e h = subst (IsPrefix view) e h

-- If the answers of `send` add up to the data, none being more than what is left, `sock_sendall` returns
-- with all of the data sent.
pub sock_sendall_total :
    (view : List ℕ) (answers : List (Result ℕ))
    → Delivers (length view) answers
    → sock_sendall view answers ≡ sent_all view
unfolding sock_sendall
sock_sendall_total view answers d =
    let e : length view ≡ length view - 0 = omega arith in
    let (w, done) =
      sendall_from-Delivers view [] 0 answers (omega arith)
        (subst (λ (k : ℕ). Delivers k answers) e d) in
    done ∙ ap sent_all (prefix_of_sent view _ w done (sendall_from-IsPrefix view [] 0 answers refl))
