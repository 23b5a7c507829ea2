-- ===== src/Certificates/BulkIssue/Rows.antt =====
-- Batches and their items in the tables of `BulkIssueView` (certificates/views.py): what rewriting
-- rows and storing an upload do to the number of items of each batch.
use govahee.Prelude.{
  ℕ, ◌+◌, ◌≤◌, ◌<◌, ◌≡◌, refl, sym, ap, ◌∙◌, ◌≢◌, inl, inr, Bool, List, [], ◌∷◌, ◌++◌, arith, ◌==◌,
  ==_refl, length, count, update, map, All, All-append, Bool-cases,
}
use govahee.Prelude.Counts.{count-update_keeps}
use govahee.Billing.State.{next_pk}
use govahee.Certificates.Uploads.{UploadRow}
use govahee.Certificates.Batch.{IssuanceItem, IssuanceBatch}
use govahee.Certificates.BulkIssue.{Desk, new_items, of_batch}

abbrev pub key : IssuanceBatch → ℕ
key b = b.id

-- Each batch has as many items as the upload had rows, and every item belongs to a batch whose key
-- was given out.
abbrev pub IsCounted : List IssuanceBatch → List IssuanceItem → Type 0
IsCounted batches items =
    All (λ (b : IssuanceBatch). count (of_batch b.id) items ≡ b.total_rows) batches
    × All (λ (i : IssuanceItem). i.batch < next_pk (map key batches)) items

abbrev pub Counts : List IssuanceItem → IssuanceBatch → Type 0
Counts items b = count (of_batch b.id) items ≡ b.total_rows

abbrev pub Below : ℕ → IssuanceItem → Type 0
Below n i = i.batch < n

-- a batch that keeps its key and total
abbrev pub Keeps : (IssuanceBatch → IssuanceBatch) → Type 0
Keeps f = (b : IssuanceBatch) → ((f b).id ≡ b.id) × ((f b).total_rows ≡ b.total_rows)

update_keys :
    (test : IssuanceBatch → Bool) (f : IssuanceBatch → IssuanceBatch) (bs : List IssuanceBatch)
    → Keeps f
    → map key (update test f bs) ≡ map key bs
update_keys test f [] keeps = refl
update_keys test f (b ∷ bs) keeps =
    let k = keeps b in
    let ih = update_keys test f bs keeps in
    elim (Bool-cases (test b)) [
      | inl yes_ ↦ rw (yes_) (cc (k.0, ih))
      | inr no_ ↦ rw (no_) (cc (ih))
    ]

update-Counts :
    (test : IssuanceBatch → Bool) (f : IssuanceBatch → IssuanceBatch) (items : List IssuanceItem)
    (bs : List IssuanceBatch)
    → Keeps f
    → All (Counts items) bs
    → All (Counts items) (update test f bs)
update-Counts test f items [] keeps h = tt
update-Counts test f items (b ∷ bs) keeps h =
    let k = keeps b in
    let ih = update-Counts test f items bs keeps h.1 in
    elim (Bool-cases (test b)) [
      | inl yes_ ↦ rw (yes_) (ap (λ n. count (of_batch n) items) k.0 ∙ h.0 ∙ sym k.1, ih)
      | inr no_ ↦ rw (no_) (h.0, ih)
    ]

-- rewriting batches
pub IsCounted-batches :
    (test : IssuanceBatch → Bool) (f : IssuanceBatch → IssuanceBatch) (bs : List IssuanceBatch)
    (items : List IssuanceItem)
    → Keeps f
    → IsCounted bs items
    → IsCounted (update test f bs) items
IsCounted-batches test f bs items keeps h =
    (update-Counts test f items bs keeps h.0, rw (update_keys test f bs keeps) h.1)

-- rewriting items in a way that leaves them in their batches
pub Counts-items :
    (p : IssuanceItem → Bool) (f : IssuanceItem → IssuanceItem) (items : List IssuanceItem)
    (bs : List IssuanceBatch)
    → ((i : IssuanceItem) → (f i).batch ≡ i.batch)
    → All (Counts items) bs
    → All (Counts (update p f items)) bs
Counts-items p f items [] keeps h = tt
Counts-items p f items (b ∷ bs) keeps h = (
  count-update_keeps p (of_batch b.id) f items (λ i. ap (λ n. n == b.id) (keeps i)) ∙ h.0,
  Counts-items p f items bs keeps h.1,
)

pub Below-items :
    (n : ℕ) (p : IssuanceItem → Bool) (f : IssuanceItem → IssuanceItem) (items : List IssuanceItem)
    → ((i : IssuanceItem) → (f i).batch ≡ i.batch)
    → All (Below n) items
    → All (Below n) (update p f items)
Below-items n p f [] keeps h = tt
Below-items n p f (i ∷ items) keeps h =
    let k = keeps i in (ground (arith, k, h.0), Below-items n p f items keeps h.1)

-- the keys: the next one is above all
next_pk-above : (n : ℕ) (ks : List ℕ) → next_pk ks ≤ next_pk (n ∷ ks)
next_pk-above n ks = ground arith

next_pk-append : (ks : List ℕ) (n : ℕ) → next_pk ks ≤ n → next_pk (ks ++ n ∷ []) ≡ n + 1
next_pk-append [] n h = ground (arith, h)
next_pk-append (k ∷ ks) n h =
    let ih = next_pk-append ks n (omega (arith, h, next_pk-above k ks)) in ground (arith, h, ih)

key-append :
    (bs : List IssuanceBatch) (b : IssuanceBatch)
    → map key (bs ++ b ∷ []) ≡ map key bs ++ key b ∷ []
key-append [] b = refl
key-append (c ∷ bs) b = ap (◌∷◌ (key c)) (key-append bs b)

-- rows for one batch
count-new_items :
    (batch pk : ℕ) (rows : List UploadRow)
    → count (of_batch batch) (new_items batch pk rows) ≡ length rows
unfolding new_items
count-new_items batch pk [] = refl
count-new_items batch pk (row ∷ rows) =
    ground (arith, ==_refl batch, count-new_items batch (pk + 1) rows)

count-new_items_other :
    (other batch pk : ℕ) (rows : List UploadRow)
    → batch ≢ other
    → count (of_batch other) (new_items batch pk rows) ≡ 0
unfolding new_items
count-new_items_other other batch pk [] ne = refl
count-new_items_other other batch pk (row ∷ rows) ne =
    ground (arith, ne, count-new_items_other other batch (pk + 1) rows ne)

count-append :
    (n : ℕ) (xs ys : List IssuanceItem)
    → count (of_batch n) (xs ++ ys) ≡ count (of_batch n) xs + count (of_batch n) ys
count-append n [] ys = omega arith
count-append n (x ∷ xs) ys = omega (arith, count-append n xs ys)

count-Below :
    (n : ℕ) (items : List IssuanceItem) → All (Below n) items → count (of_batch n) items ≡ 0
count-Below n [] h = refl
count-Below n (i ∷ items) h = ground (arith, h.0, count-Below n items h.1)

Below-weaken :
    (n m : ℕ) (items : List IssuanceItem) → n ≤ m → All (Below n) items → All (Below m) items
Below-weaken n m [] h k = tt
Below-weaken n m (i ∷ items) h k = (omega (arith, k.0), Below-weaken n m items h k.1)

Below-new_items :
    (batch pk : ℕ) (rows : List UploadRow) → All (Below (batch + 1)) (new_items batch pk rows)
unfolding new_items
Below-new_items batch pk [] = tt
Below-new_items batch pk (row ∷ rows) = (omega arith, Below-new_items batch (pk + 1) rows)

-- the batches that were there get no item
old-Counts :
    (batch pk : ℕ) (rows : List UploadRow) (items : List IssuanceItem) (bs : List IssuanceBatch)
    → next_pk (map key bs) ≤ batch
    → All (Counts items) bs
    → All (Counts (items ++ new_items batch pk rows)) bs
old-Counts batch pk rows items [] h k = tt
old-Counts batch pk rows items (b ∷ bs) h k =
    let apart : batch ≢ b.id = λ e. absurd (ground (arith, h, e)) in
    let none_new = count-new_items_other b.id batch pk rows apart in
    (
      omega (arith, count-append b.id items (new_items batch pk rows), none_new, k.0),
      old-Counts batch pk rows items bs (omega (arith, h, next_pk-above b.id (map key bs))) k.1,
    )

pub IsCounted-upload :
    (b : IssuanceBatch) (pk : ℕ) (rows : List UploadRow) (bs : List IssuanceBatch)
    (items : List IssuanceItem)
    → b.id ≡ next_pk (map key bs)
    → b.total_rows ≡ length rows
    → IsCounted bs items
    → IsCounted (bs ++ b ∷ []) (items ++ new_items b.id pk rows)
IsCounted-upload b pk rows bs items fresh total h =
    let news = new_items b.id pk rows in
    let below : All (Below b.id) items =
      Below-weaken (next_pk (map key bs)) b.id items (omega (arith, fresh)) h.1 in
    let keys : next_pk (map key (bs ++ b ∷ [])) ≡ b.id + 1 =
      ap next_pk (key-append bs b) ∙ next_pk-append (map key bs) b.id (omega (arith, fresh)) in
    (
      All-append (Counts (items ++ news)) bs (b ∷ [])
          (
            omega (
              arith,
              count-append b.id items news,
              count-Below b.id items below,
              count-new_items b.id pk rows,
              total,
            ),
            tt,
          )
          (old-Counts b.id pk rows items bs (omega (arith, fresh)) h.0),
      rw (keys) (
          All-append (Below (b.id + 1)) items news (Below-new_items b.id pk rows)
            (Below-weaken b.id (b.id + 1) items (omega arith) below)),
    )

-- the tables of a desk
abbrev pub IsSound : Desk → Type 0
IsSound s = IsCounted s.batches s.items
