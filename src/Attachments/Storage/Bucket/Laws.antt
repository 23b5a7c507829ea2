-- ===== src/Attachments/Storage/Bucket/Laws.antt =====
-- The object stores (attachments/infrastructure/storage/minio.py and parspack.py) are providers.
use govahee.Prelude.{
  ◌≡◌, refl, ap, ◌∙◌, String, true, ◌&&◌, none, some, arith, str_eq, length, Bool-cases,
  Option-cases, inl, inr, if◌then◌else◌,
}
use govahee.Prelude.Text.{get, put, get-put}
use govahee.Exec.{ok, continue-inv}
use govahee.Attachments.Chunks.{Bytes, iter_chunks, total-join, join-iter_chunks}
use govahee.Attachments.Storage.{Stored, IsStore}
use govahee.Attachments.Storage.Paths.{remove, get-remove}
use govahee.Attachments.Storage.Bucket.{
  Answer, answered, unreachable, client_error, Bucket, returns, create_bucket, head_bucket,
  after_head, ensure_bucket, put_object, minio_save, parspack_save, open_stream, delete, exists,
  Signer, Parspack, minio, parspack,
}

-- a file that was put into the bucket
Put : String → Bytes → Bucket → Stored → Bucket → Type 0
Put key bytes s stored t =
    ((returns t.answers && t.made) ≡ true)
    × (stored.storage_key ≡ key)
    × (stored.size ≡ length bytes)
    × (t.objects ≡ put key bytes s.objects)

put_object-Put :
    (digest : Bytes → String) (key : String) (bytes : Bytes) (s : Bucket) (stored : Stored)
    (t : Bucket)
    → put_object digest key (iter_chunks 8192 bytes) s ≡ (ok stored, t)
    → Put key bytes s stored t
unfolding put_object Put
put_object-Put digest key bytes s stored t h = elim (Bool-cases (returns s.answers && s.made)) [
  | inr down ↦ absurd (ground (arith, rw (down) at h))
  | inl up ↦
      let all_ = join-iter_chunks 8192 bytes (omega arith) in
      let h' = rw (up, all_) at h in
      (
        ground (arith, h', up),
        ground (arith, h'),
        ground (arith, h', total-join (iter_chunks 8192 bytes), all_),
        ground (arith, h'),
      )
]

create_bucket-objects : (a : Answer) (s : Bucket) → (create_bucket a s).1.objects ≡ s.objects
unfolding create_bucket
create_bucket-objects answered s = refl
create_bucket-objects unreachable s = refl
create_bucket-objects (client_error code) s = ground arith

after_head-objects : (a : Answer) (s : Bucket) → (after_head a s).1.objects ≡ s.objects
unfolding after_head
after_head-objects answered s = refl
after_head-objects unreachable s = refl
after_head-objects (client_error code) s = create_bucket-objects s.creates s

ensure_bucket-objects : (s : Bucket) → (ensure_bucket s).1.objects ≡ s.objects
unfolding ensure_bucket
ensure_bucket-objects s = after_head-objects (head_bucket s.answers s.made) s

Put-moved :
    (key : String) (bytes : Bytes) (s s' : Bucket) (stored : Stored) (t : Bucket)
    → s'.objects ≡ s.objects
    → Put key bytes s' stored t
    → Put key bytes s stored t
unfolding Put
Put-moved key bytes s s' stored t same (up, k, n, o) = (up, k, n, o ∙ ap (put key bytes) same)

minio_save-Put :
    (digest : Bytes → String) (key mime_type : String) (bytes : Bytes) (s t : Bucket)
    (stored : Stored)
    → minio_save digest key bytes mime_type s ≡ (ok stored, t)
    → Put key bytes s stored t
unfolding minio_save
minio_save-Put digest key mime_type bytes s t stored h =
    let (u, made, rest) =
      continue-inv (ensure_bucket s) (λ _. put_object digest key (iter_chunks 8192 bytes)) stored t
        h in
    Put-moved key bytes s (ensure_bucket s).1 stored t (ensure_bucket-objects s)
      (put_object-Put digest key bytes (ensure_bucket s).1 stored t rest)

Put-view :
    (key : String) (bytes : Bytes) (s : Bucket) (stored : Stored) (t : Bucket)
    → Put key bytes s stored t
    → ((returns t.answers && t.made) ≡ true)
      × (stored.storage_key ≡ key)
      × (stored.size ≡ length bytes)
      × ((at : String)
          → get at t.objects ≡ (if str_eq at key then some bytes else get at s.objects))
unfolding Put
Put-view key bytes s stored t (up, k, n, o) =
    (up, k, n, λ at. ap (get at) o ∙ get-put key at bytes s.objects)

delete_view :
    (key : String) (s t : Bucket)
    → delete key s ≡ (ok tt, t)
    → (at : String) → get at t.objects ≡ (if str_eq at key then none else get at s.objects)
unfolding delete
delete_view key s t h at = elim (Bool-cases (returns s.answers && s.made)) [
  | inr down ↦ absurd (ground (arith, rw (down) at h))
  | inl up ↦
      let e : t.objects ≡ remove key s.objects = ground (arith, rw (up) at h) in
      ap (get at) e ∙ get-remove key at s.objects
]

open_view :
    (key : String) (s t : Bucket) (bytes : Bytes)
    → open_stream key s ≡ (ok bytes, t)
    → (get key s.objects ≡ some bytes) × (t ≡ s)
unfolding open_stream
open_view key s t bytes h = elim (Bool-cases (returns s.answers && s.made)) [
  | inr down ↦ absurd (ground (arith, rw (down) at h))
  | inl up ↦ elim (Option-cases (get key s.objects)) [
    | inl absent ↦ absurd (ground (arith, rw (up, absent) at h))
    | inr (held, found) ↦
        let h' = rw (up, found) at h in (ground (arith, found, h'), ground (arith, h'))
  ]
]

view_open :
    (key : String) (s : Bucket) (bytes : Bytes)
    → (returns s.answers && s.made) ≡ true
    → get key s.objects ≡ some bytes
    → (open_stream key s ≡ (ok bytes, s)) × (exists key s ≡ true)
unfolding open_stream exists
view_open key s bytes up found = (rw (up, found) refl, rw (up, found) refl)

-- MinIO's provider keeps what a provider promises.
pub minio-IsStore : (digest : Bytes → String) → IsStore (minio digest)
minio-IsStore digest = record {
  place = λ key. key;
  view = λ s at. get at s.objects;
  works = λ s at. (returns s.answers && s.made) ≡ true;
  save_view = λ key mime_type bytes s t stored h.
      Put-view key bytes s stored t (minio_save-Put digest key mime_type bytes s t stored h);
  delete_view = delete_view;
  open_view = open_view;
  view_open = view_open;
}

-- Parspack's provider keeps what a provider promises.
pub parspack-IsStore :
    (digest : Bytes → String) (sign : Signer) (cfg : Parspack) → IsStore (parspack digest sign cfg)
unfolding parspack_save
parspack-IsStore digest sign cfg = record {
  place = λ key. key;
  view = λ s at. get at s.objects;
  works = λ s at. (returns s.answers && s.made) ≡ true;
  save_view = λ key mime_type bytes s t stored h.
      Put-view key bytes s stored t (put_object-Put digest key bytes s stored t h);
  delete_view = delete_view;
  open_view = open_view;
  view_open = view_open;
}
