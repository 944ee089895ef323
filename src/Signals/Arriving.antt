-- ===== src/Signals/Arriving.antt =====
-- Which handlers the bytes of the wakeup descriptor schedule.
use zuvloop.Signals.Delivery.{ahead, dispatch_signal, dispatch_all, drain_self_pipe}
use zuvloop.Base.{
  append_assoc, is_not_ready, refl, sym, ap, ◌∙◌, ℕ, ◌≡◌, true, false, none, List, [], ◌∷◌, ◌++◌,
  Exception, Result, ok, err, Option-cases, some, find, inl, inr,
}

-- Chunks that are not empty, as `sock.recv` gives them, and their bytes.
abbrev pub chunks : List (ℕ × List ℕ) → List (Result (List ℕ))
chunks [] = []
chunks ((b, bytes) ∷ rest) = ok (b ∷ bytes) ∷ chunks rest

abbrev pub all_bytes : List (ℕ × List ℕ) → List ℕ
all_bytes [] = []
all_bytes ((b, bytes) ∷ rest) = b ∷ (bytes ++ all_bytes rest)

dispatch_all-append :
    (handlers : List (ℕ × ℕ)) (xs ys : List ℕ)
    → dispatch_all handlers (xs ++ ys) ≡ dispatch_all handlers xs ++ dispatch_all handlers ys
unfolding dispatch_all
dispatch_all-append handlers [] ys = refl
dispatch_all-append handlers (x ∷ xs) ys =
    ap (λ r. dispatch_signal handlers x ++ r) (dispatch_all-append handlers xs ys)
    ∙ sym (
        append_assoc (dispatch_signal handlers x) (dispatch_all handlers xs)
          (dispatch_all handlers ys))

-- The entries that some bytes schedule: the handler of each in their order, none where a signal has none.
pub data Schedules (handlers : List (ℕ × ℕ)) : List ℕ → List ℕ → Type 0 where
  nothing : Schedules handlers [] []
  handled :
      {b entry : ℕ} {bytes entries : List ℕ}
      → find b handlers ≡ some entry
      → Schedules handlers bytes entries
      → Schedules handlers (b ∷ bytes) (entry ∷ entries)
  ignored :
      {b : ℕ} {bytes entries : List ℕ}
      → find b handlers ≡ none
      → Schedules handlers bytes entries
      → Schedules handlers (b ∷ bytes) entries

dispatch_all-Schedules :
    (handlers : List (ℕ × ℕ)) (bytes : List ℕ)
    → Schedules handlers bytes (dispatch_all handlers bytes)
unfolding dispatch_all dispatch_signal
dispatch_all-Schedules handlers [] = nothing
dispatch_all-Schedules handlers (b ∷ bytes) = elim (Option-cases (find b handlers)) [
  | inl e ↦ rw (e, dispatch_signal) (ignored e (dispatch_all-Schedules handlers bytes))
  | inr (entry, e) ↦ rw (e, dispatch_signal) (handled e (dispatch_all-Schedules handlers bytes))
]

drain_self_pipe-chunks :
    (handlers : List (ℕ × ℕ)) (cs : List (ℕ × List ℕ)) (e : Exception)
    (later : List (Result (List ℕ)))
    → is_not_ready e ≡ true
    → (drain_self_pipe handlers (chunks cs ++ (err e ∷ later)) ≡ record {
      scheduled = dispatch_all handlers (all_bytes cs);
      unwatched = false;
      raised = none;
    })
      × (drain_self_pipe handlers (chunks cs ++ (ok [] ∷ later)) ≡ record {
        scheduled = dispatch_all handlers (all_bytes cs);
        unwatched = true;
        raised = none;
      })
unfolding drain_self_pipe dispatch_all
drain_self_pipe-chunks handlers [] e later w = (rw w refl, refl)
drain_self_pipe-chunks handlers ((b, bytes) ∷ cs) e later w =
    let (p, q) = drain_self_pipe-chunks handlers cs e later w in
    let joined = sym (dispatch_all-append handlers (b ∷ bytes) (all_bytes cs)) in
    let whole = dispatch_all handlers (b ∷ bytes) in
    (
      ap (ahead whole) p
          ∙ ap (λ es. record { scheduled = es; unwatched = false; raised = none }) joined,
      ap (ahead whole) q
          ∙ ap (λ es. record { scheduled = es; unwatched = true; raised = none }) joined,
    )

-- However the bytes are cut into chunks, the pipe schedules the handler of each in the order of the bytes, and
-- none for a signal without a handler: when it would block it stays watched, and at its end it is not
-- watched any more.
pub drain_self_pipe_delivers :
    (handlers : List (ℕ × ℕ)) (cs : List (ℕ × List ℕ)) (e : Exception)
    (later : List (Result (List ℕ)))
    → is_not_ready e ≡ true
    → let blocked = drain_self_pipe handlers (chunks cs ++ (err e ∷ later)) in
      let ended = drain_self_pipe handlers (chunks cs ++ (ok [] ∷ later)) in
      Schedules handlers (all_bytes cs) blocked.scheduled
      × (blocked.unwatched ≡ false)
      × (blocked.raised ≡ none)
      × Schedules handlers (all_bytes cs) ended.scheduled
      × (ended.unwatched ≡ true)
      × (ended.raised ≡ none)
drain_self_pipe_delivers handlers cs e later w =
    let (blocked, ended) = drain_self_pipe-chunks handlers cs e later w in
    let all = dispatch_all-Schedules handlers (all_bytes cs) in
    (
      rw blocked all,
      ap (λ r. r.unwatched) blocked,
      ap (λ r. r.raised) blocked,
      rw ended all,
      ap (λ r. r.unwatched) ended,
      ap (λ r. r.raised) ended,
    )
