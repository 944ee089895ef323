-- ===== src/Sendfile/Copying.antt =====
-- What the loops that read and write have sent after each block.
use zuvloop.Sendfile.Defs.{
  write_raises, read_raises, finish_fallback, reads, Round, fallback_rounds, block,
}
use zuvloop.Sendfile.Parts.{
  IsReadingParts, sent_in_part, IsLeftNear, IsPartTransfer, IsTransfer-part,
}
use zuvloop.Sendfile.Native.{wanted_at_end, IsWithin, wanted, Returns}
use zuvloop.Base.{
  ◌&&◌, inr, inl, Bool-cases, refl, sym, ap, ◌∙◌, ℕ, ◌+◌, ◌≤◌, ◌<◌, ◌≡◌, true, false, Option, none,
  some, List, [], ◌∷◌, ◌++◌, arith, length, Result, ok, err, take, drop, ltb, Exception,
  if◌then◌else◌, take-add, drop-add, length-append,
}

module _ (chunk : ℕ) (content : List ℕ) (start : ℕ) (count : Option ℕ) (some_room : 0 < chunk) where
  pub record IsCopying (total : ℕ) (sent : List ℕ) : Type 0 where
    pub sent_so_far : sent ≡ take total (drop start content)
    pub amount : total ≡ length sent
    pub within : IsWithin count total

  near_total :
      (n total : ℕ) (sent : List ℕ)
      → length sent ≡ total + n
      → IsLeftNear start sent n (if ltb 0 total && true then some (start + total) else none)
  near_total n total sent all = elim (Bool-cases (ltb 0 total)) [
    | inl b ↦ rw b (ground (arith, b, all))
    | inr b ↦ rw b (ground (arith, b, all))
  ]

  ended :
      (part total : ℕ) (sent : List ℕ) (r : Result ℕ)
      → IsCopying total sent
      → Returns (wanted content start count) sent (some r)
      → IsPartTransfer content start count part (finish_fallback true start total sent (some r))
  ended part total sent r u h =
      IsTransfer-part content start count part (finish_fallback true start total sent (some r))
        (record {
          sent_is = u.sent_so_far ∙ ap (λ (k : ℕ). take k (drop start content)) u.amount;
          seeks_is = rw u.amount (ground arith);
          returns_is = h;
        })

  -- A write that raises after it has sent `n` bytes of its block.
  failed_write :
      (n total : ℕ) (sent bytes : List ℕ) (e : Exception)
      → take n bytes ≡ take n (drop (start + total) content)
      → length (take n bytes) ≡ n
      → IsCopying total sent
      → IsPartTransfer content start count n
          (finish_fallback true start total (sent ++ take n bytes) (some (err e)))
  failed_write n total sent bytes e same amount u =
      let all : length (sent ++ take n bytes) ≡ total + n =
        omega (arith, length-append sent (take n bytes), u.amount, amount) in
      record {
        sent_is =
            ap (λ (r : List ℕ). r ++ take n bytes) u.sent_so_far
            ∙ ap (λ (b : List ℕ). take total (drop start content) ++ b)
                (same ∙ ap (λ (d : List ℕ). take n d) (sym (drop-add start total content)))
            ∙ take-add total n (drop start content)
            ∙ ap (λ (k : ℕ). take k (drop start content)) (sym all);
        left_at = near_total n total (sent ++ take n bytes) all;
        returns_is = tt;
      }

  no_block :
      (o : Option ℕ) (total : ℕ)
      → IsWithin o total
      → ltb 0 (block chunk o total) ≡ false
      → take total (drop start content) ≡ wanted content start o
  no_block none total w over = absurd (lemma chunk some_room over)
    where
      lemma : (c : ℕ) → 0 < c → ltb 0 c ≡ false → ⊥
      lemma c h e = ground arith
  no_block (some n) total w over =
      let e : total ≡ n = ground arith in ap (λ (k : ℕ). take k (drop start content)) e

  over_block :
      (part total : ℕ) (sent : List ℕ)
      → IsCopying total sent
      → ltb 0 (block chunk count total) ≡ false
      → IsPartTransfer content start count part
          (finish_fallback true start total sent (some (ok total)))
  over_block part total sent u over =
      ended part total sent (ok total) u
        (u.amount, u.sent_so_far ∙ no_block count total u.within over)

  IsWithin-next :
      (o : Option ℕ) (total n : ℕ)
      → IsWithin o total
      → n ≤ block chunk o total
      → IsWithin o (total + n)
  IsWithin-next none total n w h = tt
  IsWithin-next (some k) total n w h = omega arith

  copied-IsCopying :
      (total : ℕ) (sent bytes : List ℕ)
      → bytes ≡ take (length bytes) (drop (start + total) content)
      → length bytes ≤ block chunk count total
      → IsCopying total sent
      → IsCopying (total + length bytes) (sent ++ bytes)
  copied-IsCopying total sent bytes e fits u = record {
    sent_so_far =
        ap (λ (r : List ℕ). r ++ bytes) u.sent_so_far
        ∙ ap (λ (b : List ℕ). take total (drop start content) ++ b)
            (e ∙ ap (λ (d : List ℕ). take (length bytes) d) (sym (drop-add start total content)))
        ∙ take-add total (length bytes) (drop start content);
    amount = omega (arith, u.amount, length-append sent bytes);
    within = IsWithin-next count total (length bytes) u.within fits;
  }

  at_end :
      (part total : ℕ) (sent : List ℕ)
      → length content ≤ start + total
      → IsCopying total sent
      → IsPartTransfer content start count part
          (finish_fallback true start total sent (some (ok total)))
  at_end part total sent h u =
      ended part total sent (ok total) u
        (u.amount, u.sent_so_far ∙ wanted_at_end content start total count h u.within)

  pub fallback_rounds-IsPartTransfer :
      (total : ℕ) (sent : List ℕ) (rounds : List Round)
      → IsReadingParts chunk content count start total rounds
      → IsCopying total sent
      → IsPartTransfer content start count
          (sent_in_part rounds)
          (fallback_rounds chunk true count start total sent rounds)
  unfolding fallback_rounds
  fallback_rounds-IsPartTransfer total sent [] h u =
      elim (Bool-cases (ltb 0 (block chunk count total))) [
        | inl more ↦ rw more (record {
          sent_is = u.sent_so_far ∙ ap (λ (k : ℕ). take k (drop start content)) u.amount;
          left_at = refl;
          returns_is = tt;
        })
        | inr over ↦ rw over (over_block 0 total sent u over)
      ]
  fallback_rounds-IsPartTransfer total sent (read_raises e ∷ rounds) h u =
      elim (Bool-cases (ltb 0 (block chunk count total))) [
        | inl more ↦ rw more (ended 0 total sent (err e) u tt)
        | inr over ↦ rw over (over_block 0 total sent u over)
      ]
  fallback_rounds-IsPartTransfer total sent (write_raises [] n e ∷ rounds) (some_byte, s, a) u =
      absurd (some_byte refl)
  fallback_rounds-IsPartTransfer total sent (write_raises (b ∷ bytes) n e ∷ rounds)
        (some_byte, s, a) u =
      let long : ltb 0 (length (b ∷ bytes)) ≡ true = ground arith in
      elim (Bool-cases (ltb 0 (block chunk count total))) [
        | inl more ↦ rw more (rw long (failed_write n total sent (b ∷ bytes) e s a u))
        | inr over ↦ rw over (over_block n total sent u over)
      ]
  fallback_rounds-IsPartTransfer total sent (reads [] ∷ rounds) (e, fits, inl some_byte, h) u =
      absurd (some_byte refl)
  fallback_rounds-IsPartTransfer total sent (reads [] ∷ rounds) (e, fits, inr end, h) u =
      let part = sent_in_part rounds in
      elim (Bool-cases (ltb 0 (block chunk count total))) [
        | inl more ↦ rw more (at_end part total sent end u)
        | inr over ↦ rw over (over_block part total sent u over)
      ]
  fallback_rounds-IsPartTransfer total sent (reads (b ∷ bytes) ∷ rounds) (e, fits, ends, h) u =
      let n = length (b ∷ bytes) in
      let long : ltb 0 n ≡ true = ground arith in
      let later =
        fallback_rounds-IsPartTransfer (total + n) (sent ++ (b ∷ bytes)) rounds h
          (copied-IsCopying total sent (b ∷ bytes) e fits u) in
      elim (Bool-cases (ltb 0 (block chunk count total))) [
        | inl more ↦ rw more (rw long later)
        | inr over ↦ rw over (over_block (sent_in_part rounds) total sent u over)
      ]
