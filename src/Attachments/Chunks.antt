-- ===== src/Attachments/Chunks.antt =====
-- `StorageProvider.iter_chunks` of attachments/infrastructure/storage/base.py. A file object is
-- the bytes that are left in it, a byte is a number.
use govahee.Prelude.{
  ℕ, zero, suc, ◌+◌, ◌-◌, ◌≤◌, ◌<◌, ◌≡◌, refl, List, [], ◌∷◌, ◌++◌, arith, length, length-append,
  ◌==◌, if◌then◌else◌,
}

abbrev pub Bytes : Type 0
Bytes = List ℕ

-- `file_obj.read(n)`, and what is left after it
abbrev pub take : ℕ → Bytes → Bytes
take n [] = []
take n (b ∷ bs) = if n == 0 then [] else b ∷ take (n - 1) bs

abbrev pub drop : ℕ → Bytes → Bytes
drop n [] = []
drop n (b ∷ bs) = if n == 0 then b ∷ bs else drop (n - 1) bs

-- the `while` loop, with fuel: it ends where a chunk is empty
unfoldable pub chunks : ℕ → ℕ → Bytes → List Bytes
chunks zero size bytes = []
chunks (suc fuel) size [] = []
chunks (suc fuel) size (b ∷ bs) =
    let rest = chunks fuel size (drop size (b ∷ bs)) in
    if size == 0 then [] else take size (b ∷ bs) ∷ rest

-- `iter_chunks`; a round takes one byte at least, so there are no more rounds than bytes
unfoldable pub iter_chunks : ℕ → Bytes → List Bytes
iter_chunks size bytes = chunks (length bytes) size bytes

-- what writing the chunks one after the other gives
abbrev pub join : List Bytes → Bytes
join [] = []
join (c ∷ cs) = c ++ join cs

-- `for chunk in ...: size += len(chunk)`
abbrev pub total : List Bytes → ℕ
total [] = 0
total (c ∷ cs) = length c + total cs

take-drop : (n : ℕ) (bs : Bytes) → take n bs ++ drop n bs ≡ bs
take-drop n [] = refl
take-drop n (b ∷ bs) = ground (arith, take-drop (n - 1) bs)

length-drop : (n : ℕ) (bs : Bytes) → length (drop n bs) ≤ length bs
length-drop n [] = omega arith
length-drop n (b ∷ bs) = ground (arith, length-drop (n - 1) bs)

join-chunks :
    (fuel size : ℕ) (bytes : Bytes)
    → length bytes ≤ fuel
    → 0 < size
    → join (chunks fuel size bytes) ≡ bytes
unfolding chunks
join-chunks zero size [] enough some_ = refl
join-chunks zero size (b ∷ bs) enough some_ = absurd (ground arith)
join-chunks (suc fuel) size [] enough some_ = refl
join-chunks (suc fuel) size (b ∷ bs) enough some_ =
    let ih =
      join-chunks fuel size (drop (size - 1) bs) (ground (arith, length-drop (size - 1) bs))
        some_ in
    ground (arith, ih, take-drop (size - 1) bs)

-- The chunks of a file are the file, cut up.
pub join-iter_chunks : (size : ℕ) (bytes : Bytes) → 0 < size → join (iter_chunks size bytes) ≡ bytes
unfolding iter_chunks
join-iter_chunks size bytes some_ = join-chunks (length bytes) size bytes (omega arith) some_

pub total-join : (cs : List Bytes) → total cs ≡ length (join cs)
total-join [] = refl
total-join (c ∷ cs) = omega (arith, total-join cs, length-append c (join cs))
