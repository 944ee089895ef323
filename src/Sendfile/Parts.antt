-- ===== src/Sendfile/Parts.antt =====
-- What a transfer leaves whose last write fails over a block that it sent in part.
use zuvloop.Sendfile.Defs.{Transfer, write_raises, read_raises, reads, Round, block}
use zuvloop.Sendfile.Native.{wanted, IsTransfer, Returns, seek_after}
use zuvloop.Base.{
  inr, inl, Bool-cases, refl, ℕ, ◌+◌, ◌≤◌, ◌<◌, ◌≡◌, ◌≢◌, ◌⊎◌, Option, none, some, List, [], ◌∷◌,
  arith, length, Result, ok, err, take, drop, ltb, if◌then◌else◌,
}

-- `file.read` gives the file's next bytes, no more than it is asked for, and none only at the end; a write
-- that raises has sent at most its block.
abbrev pub IsReadingParts : ℕ → List ℕ → Option ℕ → ℕ → ℕ → List Round → Type 0
IsReadingParts chunk content count offset total [] = Unit
IsReadingParts chunk content count offset total (reads bytes ∷ rounds) =
    (bytes ≡ take (length bytes) (drop (offset + total) content))
    × (length bytes ≤ block chunk count total)
    × ((bytes ≢ []) ⊎ (length content ≤ offset + total))
    × IsReadingParts chunk content count offset (total + length bytes) rounds
IsReadingParts chunk content count offset total (write_raises bytes n e ∷ rounds) =
    (bytes ≢ [])
    × (take n bytes ≡ take n (drop (offset + total) content))
    × (length (take n bytes) ≡ n)
IsReadingParts chunk content count offset total (read_raises e ∷ rounds) = Unit

-- The same where a write that raises has sent nothing of its block.
abbrev pub IsReading : ℕ → List ℕ → Option ℕ → ℕ → ℕ → List Round → Type 0
IsReading chunk content count offset total [] = Unit
IsReading chunk content count offset total (reads bytes ∷ rounds) =
    (bytes ≡ take (length bytes) (drop (offset + total) content))
    × (length bytes ≤ block chunk count total)
    × ((bytes ≢ []) ⊎ (length content ≤ offset + total))
    × IsReading chunk content count offset (total + length bytes) rounds
IsReading chunk content count offset total (write_raises bytes n e ∷ rounds) =
    (bytes ≢ []) × (n ≡ 0)
IsReading chunk content count offset total (read_raises e ∷ rounds) = Unit

-- How many bytes of its block the write sent that raised.
abbrev pub sent_in_part : List Round → ℕ
sent_in_part [] = 0
sent_in_part (reads bytes ∷ rounds) = sent_in_part rounds
sent_in_part (read_raises e ∷ rounds) = 0
sent_in_part (write_raises bytes n e ∷ rounds) = n

pub IsReading-parts :
    (chunk : ℕ) (content : List ℕ) (count : Option ℕ) (offset total : ℕ) (rounds : List Round)
    → IsReading chunk content count offset total rounds
    → IsReadingParts chunk content count offset total rounds × (sent_in_part rounds ≡ 0)
IsReading-parts chunk content count offset total [] h = (tt, refl)
IsReading-parts chunk content count offset total (reads bytes ∷ rounds) (e, fits, ends, h) =
    let (later, none_left) =
      IsReading-parts chunk content count offset (total + length bytes) rounds h in
    ((e, fits, ends, later), none_left)
IsReading-parts chunk content count offset total (read_raises e ∷ rounds) h = (tt, refl)
IsReading-parts chunk content count offset total (write_raises bytes n e ∷ rounds) (some_byte, z) =
    rw z ((some_byte, refl, refl), refl)

-- The file is left behind the last byte sent but for `part` bytes at most; none if it stays where it was.
abbrev pub IsLeftNear : ℕ → List ℕ → ℕ → Option ℕ → Type 0
IsLeftNear offset sent part none = length sent ≤ part
IsLeftNear offset sent part (some position) =
    (offset < position)
    × (position ≤ offset + length sent)
    × (offset + length sent ≤ position + part)

-- Behind the last byte sent if a number is returned, and near it if an exception ends the transfer.
abbrev pub IsLeftAt : ℕ → List ℕ → ℕ → Option ℕ → Option (Result ℕ) → Type 0
IsLeftAt offset sent part seeks none = seeks ≡ none
IsLeftAt offset sent part seeks (some (ok n)) = IsLeftNear offset sent 0 seeks
IsLeftAt offset sent part seeks (some (err e)) = IsLeftNear offset sent part seeks

-- What a transfer has sent, where it leaves the file if `part` bytes of a block went before a write raised, and
-- what it returns.
pub record IsPartTransfer (content : List ℕ) (offset : ℕ) (count : Option ℕ) (part : ℕ)
    (t : Transfer) : Type 0 where
  pub sent_is : t.sent ≡ take (length t.sent) (drop offset content)
  pub left_at : IsLeftAt offset t.sent part t.seeks t.outcome
  pub returns_is : Returns (wanted content offset count) t.sent t.outcome

left_near :
    (offset part : ℕ) (sent : List ℕ)
    → IsLeftNear offset sent part
        (if ltb 0 (length sent) then some (offset + length sent) else none)
left_near offset part sent = elim (Bool-cases (ltb 0 (length sent))) [
  | inl b ↦ rw b (ground (arith, b))
  | inr b ↦ rw b (ground (arith, b))
]

left_at_end :
    (offset part : ℕ) (sent : List ℕ) (outcome : Option (Result ℕ))
    → IsLeftAt offset sent part (seek_after offset sent outcome) outcome
left_at_end offset part sent none = refl
left_at_end offset part sent (some (ok n)) = left_near offset 0 sent
left_at_end offset part sent (some (err e)) = left_near offset part sent

pub IsTransfer-part :
    (content : List ℕ) (offset : ℕ) (count : Option ℕ) (part : ℕ) (t : Transfer)
    → IsTransfer content offset count t
    → IsPartTransfer content offset count part t
IsTransfer-part content offset count part t h = record {
  sent_is = h.sent_is;
  left_at = rw h.seeks_is (left_at_end offset part t.sent t.outcome);
  returns_is = h.returns_is;
}

near_exact :
    (offset : ℕ) (sent : List ℕ) (seeks : Option ℕ)
    → IsLeftNear offset sent 0 seeks
    → seeks ≡ (if ltb 0 (length sent) then some (offset + length sent) else none)
near_exact offset sent none h = ground arith
near_exact offset sent (some position) (low, most, least) =
    let e : position ≡ offset + length sent = omega arith in ground (arith, e)

left_exact :
    (offset : ℕ) (sent : List ℕ) (seeks : Option ℕ) (outcome : Option (Result ℕ))
    → IsLeftAt offset sent 0 seeks outcome
    → seeks ≡ seek_after offset sent outcome
left_exact offset sent seeks none h = h
left_exact offset sent seeks (some (ok n)) h = near_exact offset sent seeks h
left_exact offset sent seeks (some (err e)) h = near_exact offset sent seeks h

pub IsTransfer-whole :
    (content : List ℕ) (offset : ℕ) (count : Option ℕ) (t : Transfer)
    → IsPartTransfer content offset count 0 t
    → IsTransfer content offset count t
IsTransfer-whole content offset count t h = record {
  sent_is = h.sent_is;
  seeks_is = left_exact offset t.sent t.seeks t.outcome h.left_at;
  returns_is = h.returns_is;
}
