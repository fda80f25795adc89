-- ===== src/Storage/Validate/Sizes.antt =====
-- app/storage/validate.py: what passes a `SizeLimitReader`.
use deal_truth_api.Prelude.{
  ℕ, ◌+◌, ◌≡◌, ◌≤◌, ◌<◌, inl, inr, refl, ap, sym, ◌∙◌, List, [], ◌∷◌, ◌++◌, length, length-append,
  append_assoc, append-nil, ltb, ltb→lt, Bool-cases, arith,
}
use deal_truth_api.Pipeline.Session.{Result, ok, err}
use deal_truth_api.Storage.Memory.{Bytes}
use deal_truth_api.Storage.Validate.{Reader, too_large, next_piece, counted, read, joined, drain}

-- All bytes of a stream, up to its first empty piece, where it ends.
unfoldable pub content : List Bytes → Bytes
content [] = []
content ([] ∷ pieces) = []
content ((b ∷ piece) ∷ pieces) = (b ∷ piece) ++ content pieces

-- What a client has at the end: all bytes, counted and digested, within the limit; or AudioTooLarge,
-- where the count is above the limit, and the digest has no more than the limit.
pub Drained : List Bytes → Reader → Result Bytes × Reader → Type 0
Drained pieces r (ok body, last) =
    (body ≡ content pieces)
    × (last.digested ≡ r.digested ++ body)
    × (last.bytes_read ≡ r.bytes_read + length body)
    × (last.bytes_read ≤ r.max_bytes)
Drained pieces r (err e, last) =
    (e ≡ too_large)
    × (r.max_bytes < last.bytes_read)
    × (last.bytes_read ≤ r.bytes_read + length (content pieces))

joined_lem :
    (b : ℕ) (piece : Bytes) (pieces : List Bytes) (r next : Reader) (rest : Result Bytes × Reader)
    → next.bytes_read ≡ r.bytes_read + length (b ∷ piece)
    → next.max_bytes ≡ r.max_bytes
    → next.digested ≡ r.digested ++ (b ∷ piece)
    → Drained pieces next rest
    → Drained ((b ∷ piece) ∷ pieces) r (joined (b ∷ piece) rest)
unfolding Drained content
joined_lem b piece pieces r next (ok more, last) read_so max_so digest_so
      (whole, digest, count, small) =
    (
      ap (λ (l : Bytes). (b ∷ piece) ++ l) whole,
      digest ∙ (ap (λ (l : Bytes). l ++ more) digest_so ∙ append_assoc r.digested (b ∷ piece) more),
      omega (arith, length-append (b ∷ piece) more),
      omega arith,
    )
joined_lem b piece pieces r next (err e, last) read_so max_so digest_so (large, over, under) =
    (large, omega arith, omega (arith, length-append (b ∷ piece) (content pieces)))

-- A client that reads a stream to its end through a reader that is within its limit gets all bytes,
-- each counted and digested, and the count is within the limit; or it gets AudioTooLarge, where the
-- count is above the limit, and then so are the bytes of the stream with those that were read before.
pub drain-Drained :
    (pieces : List Bytes) (r : Reader)
    → r.bytes_read ≤ r.max_bytes
    → Drained pieces r (drain pieces r)
unfolding drain Drained content read next_piece counted
drain-Drained [] r h = (refl, sym (append-nil r.digested), omega arith, h)
drain-Drained ([] ∷ pieces) r h = (refl, sym (append-nil r.digested), omega arith, h)
drain-Drained ((b ∷ piece) ∷ pieces) r h =
    elim (Bool-cases (ltb r.max_bytes (r.bytes_read + length (b ∷ piece)))) [
      | inl e ↦ rw e (refl, ltb→lt _ _ e, omega (arith, length-append (b ∷ piece) (content pieces)))
      | inr e ↦
          let next : Reader = record r {
            stream = pieces;
            bytes_read = r.bytes_read + length (b ∷ piece);
            digested = r.digested ++ (b ∷ piece);
          } in
          rw e (
            joined_lem b piece pieces r next (drain pieces next) refl refl refl
              (drain-Drained pieces next (ground arith)))
    ]
