-- ===== src/Sendfile/Native.antt =====
-- What the loop over `os.sendfile` sends, where it leaves the file, and how it ends.
use zuvloop.Sendfile.Defs.{
  asked, sendfile_to_fd, disconnected, native_rounds, finish_native, next_block, Transfer,
}
use zuvloop.Base.{
  ◌⊎◌, os_error, ◌==◌, length-take, inr, length-append, inl, Bool-cases, take-add, drop-add, refl,
  ◌++◌, Exception, sym, ap, length-drop, ◌∙◌, arith, take-all, ℕ, ◌+◌, ◌-◌, ◌≤◌, ◌≡◌, ◌≢◌, false,
  Option, none, some, List, [], ◌∷◌, length, if◌then◌else◌, Result, ok, err, take, drop, ltb,
  sendfile_not_available,
}

-- The bytes that a call asks for: from the offset on, `count` of them at most.
abbrev pub wanted : List ℕ → ℕ → Option ℕ → List ℕ
wanted content offset none = drop offset content
wanted content offset (some n) = take n (drop offset content)

-- A number that is returned is the number of bytes sent, and these are all that were asked for.
abbrev pub Returns : List ℕ → List ℕ → Option (Result ℕ) → Type 0
Returns all sent none = Unit
Returns all sent (some (err e)) = Unit
Returns all sent (some (ok n)) = (n ≡ length sent) × (sent ≡ all)

-- The position that the file is left at, once the transfer has ended.
abbrev pub seek_after : ℕ → List ℕ → Option (Result ℕ) → Option ℕ
seek_after offset sent none = none
seek_after offset sent (some _) = if ltb 0 (length sent) then some (offset + length sent) else none

-- What a transfer has sent, where it leaves the file, and what it returns.
pub record IsTransfer (content : List ℕ) (offset : ℕ) (count : Option ℕ) (t : Transfer)
    : Type 0 where
  pub sent_is : t.sent ≡ take (length t.sent) (drop offset content)
  pub seeks_is : t.seeks ≡ seek_after offset t.sent t.outcome
  pub returns_is : Returns (wanted content offset count) t.sent t.outcome

-- `os.sendfile` moves at most the block and no more than the file holds, and nothing only at its end;
-- it does not raise asyncio's SendfileNotAvailableError.
abbrev pub IsHonest : List ℕ → Option ℕ → ℕ → ℕ → ℕ → List (Result ℕ) → Type 0
IsHonest content count blocksize offset total [] = Unit
IsHonest content count blocksize offset total (err e ∷ answers) = e ≢ sendfile_not_available
IsHonest content count blocksize offset total (ok n ∷ answers) =
    (n ≤ blocksize)
    × (n ≤ length content - offset)
    × ((n ≢ 0) ⊎ (length content ≤ offset))
    × IsHonest content count (next_block count blocksize (total + n)) (offset + n) (total + n)
        answers

-- The block that is asked for at each round.
abbrev IsBlock : ℕ → Option ℕ → ℕ → ℕ → Type 0
IsBlock size none blocksize total = blocksize ≡ size
IsBlock size (some n) blocksize total = (blocksize ≡ n - total) × (total ≤ n)

abbrev pub IsWithin : Option ℕ → ℕ → Type 0
IsWithin none total = Unit
IsWithin (some n) total = total ≤ n

-- At the end of the file everything that was asked for is sent.
pub wanted_at_end :
    (content : List ℕ) (offset total : ℕ) (count : Option ℕ)
    → length content ≤ offset + total
    → IsWithin count total
    → take total (drop offset content) ≡ wanted content offset count
wanted_at_end content offset total none h w =
    take-all total (drop offset content) (omega (arith, length-drop offset content))
wanted_at_end content offset total (some n) h w =
    take-all total (drop offset content) (omega (arith, length-drop offset content))
    ∙ sym (take-all n (drop offset content) (omega (arith, length-drop offset content)))

module _ (enotconn : ℕ) (content : List ℕ) (start : ℕ) (count : Option ℕ) where
  record IsUnderway (blocksize offset total : ℕ) (sent : List ℕ) : Type 0 where
    sent_so_far : sent ≡ take total (drop start content)
    position : offset ≡ start + total
    amount : total ≡ length sent
    block_is : IsBlock (length content) count blocksize total

  IsUnderway-IsWithin :
      (o : Option ℕ) (blocksize total : ℕ)
      → IsBlock (length content) o blocksize total
      → IsWithin o total
  IsUnderway-IsWithin none blocksize total b = tt
  IsUnderway-IsWithin (some n) blocksize total b = b.1

  finished :
      (blocksize offset total : ℕ) (sent : List ℕ) (r : Result ℕ)
      → IsUnderway blocksize offset total sent
      → Returns (wanted content start count) sent (some r)
      → IsTransfer content start count (finish_native offset total sent (some r))
  finished blocksize offset total sent r u h = record {
    sent_is = u.sent_so_far ∙ ap (λ (k : ℕ). take k (drop start content)) u.amount;
    seeks_is = rw (u.position, u.amount) refl;
    returns_is = h;
  }

  completed :
      (blocksize offset total : ℕ) (sent : List ℕ)
      → IsUnderway blocksize offset total sent
      → sent ≡ wanted content start count
      → IsTransfer content start count (finish_native offset total sent (some (ok total)))
  completed blocksize offset total sent u all =
      finished blocksize offset total sent (ok total) u (u.amount, all)

  failed :
      (blocksize offset total : ℕ) (sent : List ℕ) (e : Exception)
      → IsUnderway blocksize offset total sent
      → IsTransfer content start count (finish_native offset total sent (some (err e)))
  failed blocksize offset total sent e u = finished blocksize offset total sent (err e) u tt

  -- The loop has ended by its test.
  out_of_block :
      (o : Option ℕ) (blocksize total : ℕ)
      → IsBlock (length content) o blocksize total
      → ltb 0 blocksize ≡ false
      → take total (drop start content) ≡ wanted content start o
  out_of_block none blocksize total b over =
      wanted_at_end content start total none (ground arith) tt
  out_of_block (some n) blocksize total b over =
      let e : total ≡ n = ground arith in ap (λ (k : ℕ). take k (drop start content)) e

  next-IsUnderway :
      (blocksize offset total n : ℕ) (sent : List ℕ)
      → n ≤ blocksize
      → n ≤ length content - offset
      → IsUnderway blocksize offset total sent
      → IsUnderway
          (next_block count blocksize (total + n))
          (offset + n)
          (total + n)
          (sent ++ take n (drop offset content))
  next-IsUnderway blocksize offset total n sent fits inside u = record {
    sent_so_far = resumed;
    position = omega (arith, u.position);
    amount = omega (
      arith,
      u.amount,
      length-append sent (take n (drop offset content)),
      length-take n (drop offset content),
      length-drop offset content,
    );
    block_is = next_is count u.block_is;
  }
    where
      here : drop offset content ≡ drop total (drop start content)
      here = ap (λ (k : ℕ). drop k content) u.position ∙ sym (drop-add start total content)

      resumed : sent ++ take n (drop offset content) ≡ take (total + n) (drop start content)
      resumed =
          ap (λ (r : List ℕ). r ++ take n (drop offset content)) u.sent_so_far
          ∙ ap (λ (d : List ℕ). take total (drop start content) ++ take n d) here
          ∙ take-add total n (drop start content)

      next_is :
          (o : Option ℕ)
          → IsBlock (length content) o blocksize total
          → IsBlock (length content) o (next_block o blocksize (total + n)) (total + n)
      next_is none b = b
      next_is (some k) b = (refl, omega (arith, b.0, b.1))

  native_rounds-IsTransfer :
      (blocksize offset total : ℕ) (sent : List ℕ) (answers : List (Result ℕ))
      → IsHonest content count blocksize offset total answers
      → IsUnderway blocksize offset total sent
      → IsTransfer content start count
          (native_rounds enotconn content count blocksize offset total sent answers)
  unfolding native_rounds
  native_rounds-IsTransfer blocksize offset total sent [] h u =
      elim (Bool-cases (ltb 0 blocksize)) [
        | inl more ↦ rw more (record {
          sent_is = u.sent_so_far ∙ ap (λ (k : ℕ). take k (drop start content)) u.amount;
          seeks_is = refl;
          returns_is = tt;
        })
        | inr over ↦ rw over (
            completed blocksize offset total sent u
              (u.sent_so_far ∙ out_of_block count blocksize total u.block_is over))
      ]
  native_rounds-IsTransfer blocksize offset total sent (err e ∷ answers) h u =
      elim (Bool-cases (ltb 0 blocksize)) [
        | inl more ↦ ground (
          arith,
          more,
          failed blocksize offset total sent sendfile_not_available u,
          failed blocksize offset total sent (disconnected enotconn e) u,
          failed blocksize offset total sent e u,
        )
        | inr over ↦ rw over (
            completed blocksize offset total sent u
              (u.sent_so_far ∙ out_of_block count blocksize total u.block_is over))
      ]
  native_rounds-IsTransfer blocksize offset total sent (ok n ∷ answers) (fits, inside, ends, h) u =
      let rest =
        native_rounds-IsTransfer (next_block count blocksize (total + n)) (offset + n) (total + n)
          (sent ++ take n (drop offset content)) answers h
          (next-IsUnderway blocksize offset total n sent fits inside u) in
      let over_at_end : n ≡ 0 → sent ≡ wanted content start count = λ z.
        u.sent_so_far
        ∙ wanted_at_end content start total count (omega (arith, ends, z, u.position))
            (IsUnderway-IsWithin count blocksize total u.block_is) in
      elim (Bool-cases (ltb 0 blocksize)) [
        | inl more ↦ elim (Bool-cases (n == 0)) [
          | inl z ↦
              rw (more, z) (completed blocksize offset total sent u (over_at_end (ground arith)))
          | inr nz ↦ rw (more, nz) rest
        ]
        | inr over ↦ rw over (
            completed blocksize offset total sent u
              (u.sent_so_far ∙ out_of_block count blocksize total u.block_is over))
      ]

-- Only a call that has sent nothing says that `os.sendfile` cannot be used.
native_rounds-unavailable :
    (enotconn : ℕ) (content : List ℕ) (count : Option ℕ) (blocksize offset total : ℕ)
    (sent : List ℕ) (answers : List (Result ℕ))
    → IsHonest content count blocksize offset total answers
    → total ≡ length sent
    → let t = native_rounds enotconn content count blocksize offset total sent answers in
      t.outcome ≡ some (err sendfile_not_available) → t.sent ≡ []
unfolding native_rounds disconnected
native_rounds-unavailable k content count blocksize offset total sent [] h a e = ground arith
native_rounds-unavailable k content count blocksize offset total [] (err x ∷ answers) h a e =
    ground arith
native_rounds-unavailable k content count blocksize offset total (b ∷ sent)
      (err (os_error kind number) ∷ answers) h a e =
    ground arith
native_rounds-unavailable k content count blocksize offset total (b ∷ sent) (err x ∷ answers) h a
      e =
    ground arith
native_rounds-unavailable k content count blocksize offset total sent (ok n ∷ answers)
      (fits, inside, ends, h) a e =
    let sent' = sent ++ take n (drop offset content) in
    let rest =
      native_rounds-unavailable k content count (next_block count blocksize (total + n))
        (offset + n) (total + n) sent' answers h
        (omega (
          arith,
          length-append sent (take n (drop offset content)),
          length-take n (drop offset content),
          length-drop offset content,
        )) in
    ground (arith, rest)

module _ (enotconn : ℕ) (content : List ℕ) (offset : ℕ) (count : Option ℕ)
    (answers : List (Result ℕ)) where
  begun : IsUnderway enotconn content offset count (asked count (length content)) offset 0 []
  begun = record {
    sent_so_far = refl;
    position = omega arith;
    amount = refl;
    block_is = begun_is count;
  }
    where
      begun_is : (o : Option ℕ) → IsBlock (length content) o (asked o (length content)) 0
      begun_is none = refl
      begun_is (some n) = (omega arith, omega arith)

  -- For a file of this content and an honest `os.sendfile`: the socket gets the file's bytes from the
  -- offset on, in order, at most `count` of them; when the loop has ended, the file stands behind the last
  -- byte sent if any was; a returned number is the number of bytes sent, which are then all that were
  -- asked for.
  pub sendfile_to_fd-IsTransfer :
      IsHonest content count (asked count (length content)) offset 0 answers
      → IsTransfer content offset count
          (sendfile_to_fd enotconn content count (length content) offset answers)
  unfolding sendfile_to_fd
  sendfile_to_fd-IsTransfer h =
      native_rounds-IsTransfer enotconn content offset count (asked count (length content)) offset 0
        [] answers h begun

  -- With an honest `os.sendfile`, the call says that `os.sendfile` cannot be used only if the socket got
  -- nothing from it.
  pub sendfile_to_fd-unavailable :
      IsHonest content count (asked count (length content)) offset 0 answers
      → (sendfile_to_fd enotconn content count (length content) offset answers).outcome
        ≡ some (err sendfile_not_available)
      → (sendfile_to_fd enotconn content count (length content) offset answers).sent ≡ []
  unfolding sendfile_to_fd
  sendfile_to_fd-unavailable h e =
      native_rounds-unavailable enotconn content count (asked count (length content)) offset 0 []
        answers h refl e
