-- ===== src/Sendfile/Giving.antt =====
-- The bytes that `_sendfile_fallback` hands the transport, as a part of the file.
use zuvloop.Base.{
  length, ◌+◌, ℕ, ◌≡◌, Option, List, [], ◌∷◌, Result, ok, err, take, drop, ◌≤◌, ◌≢◌, ◌⊎◌,
}
use zuvloop.Sendfile.Defs.{transport_chunk, block}
use zuvloop.Sendfile.Falling.{bytes_of, Block}

-- What the reads of the blocks give: the file's next bytes, no more than asked for, none only at its end.
abbrev pub GivesNext : List ℕ → Option ℕ → ℕ → ℕ → Result (List ℕ) → Type 0
GivesNext content count offset total (err e) = Unit
GivesNext content count offset total (ok bytes) =
    (bytes ≡ take (length bytes) (drop (offset + total) content))
    × (length bytes ≤ block transport_chunk count total)
    × ((bytes ≢ []) ⊎ (length content ≤ offset + total))

abbrev pub AllGive : List ℕ → Option ℕ → ℕ → ℕ → List Block → Type 0
AllGive content count offset total [] = Unit
AllGive content count offset total (b ∷ blocks) =
    GivesNext content count offset total b.content
    × AllGive content count offset (total + length (bytes_of b.content)) blocks
