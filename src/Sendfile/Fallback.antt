-- ===== src/Sendfile/Fallback.antt =====
-- What the loops that read and write send, and `sock_sendfile` as a whole.
use zuvloop.Sendfile.Defs.{fall_back, Transfer, is_unavailable, fallback, Round}
use zuvloop.Sendfile.Parts.{
  IsReadingParts, IsReading, sent_in_part, IsReading-parts, IsPartTransfer, IsTransfer-whole,
}
use mathlib.Core.Path.{subst}
use zuvloop.Sendfile.Native.{IsWithin, IsTransfer}
use zuvloop.Base.{
  sendfile_not_available, ◌&&◌, Bool, inr, inl, Bool-cases, refl, sym, ℕ, ◌<◌, ◌≡◌, true, false,
  Option, none, some, List, [], ◌++◌, arith, Result, ok, err, ◌==◌,
}
use zuvloop.Sendfile.Copying.{IsCopying, fallback_rounds-IsPartTransfer}

copying_none : (content : List ℕ) (start : ℕ) (o : Option ℕ) → IsWithin o 0
copying_none content start none = tt
copying_none content start (some n) = omega arith

module _ (chunk : ℕ) (content : List ℕ) (offset : ℕ) (count : Option ℕ) (rounds : List Round)
    (some_room : 0 < chunk) where
  -- With a source that can seek and reads honestly, and a chunk of at least one byte: the receiver gets the
  -- file's bytes from the offset on, in order, at most `count` of them; when the loop has ended, also by an
  -- exception, the file stands behind the last block that was handed over whole; a returned number is the number
  -- of bytes handed over, which are then all that were asked for.
  pub fallback-IsPartTransfer :
      IsReadingParts chunk content count offset 0 rounds
      → IsPartTransfer content offset count
          (sent_in_part rounds)
          (fallback chunk true count offset rounds)
  unfolding fallback
  fallback-IsPartTransfer h =
      let u : IsCopying chunk content offset count some_room 0 [] = record {
        sent_so_far = refl;
        amount = refl;
        within = copying_none content offset count;
      } in
      let t = fallback_rounds-IsPartTransfer chunk content offset count some_room 0 [] rounds h u in
      elim (Bool-cases (offset == 0)) [ inl z ↦ rw z t | inr z ↦ rw z t ]

  -- Where a write that raises has sent nothing, the file stands behind the last byte handed over.
  pub fallback-IsTransfer :
      IsReading chunk content count offset 0 rounds
      → IsTransfer content offset count (fallback chunk true count offset rounds)
  fallback-IsTransfer h =
      let (parts, nothing) = IsReading-parts chunk content count offset 0 rounds h in
      let t = fallback chunk true count offset rounds in
      IsTransfer-whole content offset count t (
        subst (λ part. IsPartTransfer content offset count part t) nothing
          (fallback-IsPartTransfer parts))

pub unavailable :
    (o : Option (Result ℕ)) (allowed : Bool)
    → (is_unavailable o && allowed) ≡ true
    → o ≡ some (err sendfile_not_available)
unavailable none allowed h = cc
unavailable (some (ok n)) allowed h = cc
unavailable (some (err sendfile_not_available)) allowed h = refl
unavailable (some (err e)) allowed h = cc

pub fall_back-IsTransfer :
    (content : List ℕ) (offset : ℕ) (count : Option ℕ) (falls : Bool) (native plain : Transfer)
    → (falls ≡ true → native.sent ≡ [])
    → IsTransfer content offset count native
    → IsTransfer content offset count plain
    → IsTransfer content offset count (fall_back falls native plain)
fall_back-IsTransfer content offset count false native plain nothing n p = n
fall_back-IsTransfer content offset count true native plain nothing n p =
    subst
      (λ (sent : List ℕ).
        IsTransfer content offset count
          (record { sent = sent ++ plain.sent; seeks = plain.seeks; outcome = plain.outcome }))
      (sym (nothing refl)) p
