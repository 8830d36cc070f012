-- ===== src/Journal/Framing.antt =====
-- The frame of a file of rust/worker/src/journal/files.rs: magic, length, SHA-256 and payload. The
-- digest is ring's.
use mathlib.Core.Path.{subst}
use distributed_execution.Base.{
  ℕ, suc, ◌+◌, ◌≤◌, ◌≡◌, refl, sym, ap, ◌∙◌, arith, true, ◌&&◌, ◌==◌, leb, List, [], ◌∷◌, ◌++◌,
  length, take, drop, take-append, drop-append, length-append, Bytes, bytes_eq, bytes_eq_iff, ascii,
  Result, ok, ◌>>◌, guard,
}
use distributed_execution.Log.Format.{to_be_bytes}
use distributed_execution.Log.Format.Size.{length-to_be_bytes}
use distributed_execution.Log.Format.Encoding.{from_be, from_be-to_be_bytes}
use distributed_execution.Journal.Records.{JournalError, corrupt}
use distributed_execution.Journal.Store.{max_payload}

abbrev pub file_header : ℕ
file_header = 48

abbrev pub file_magic : Bytes
file_magic = ascii "DSPJNL01"

module _ (sha256 : Bytes → Bytes) where
  -- What `replace` writes.
  unfoldable pub frame : Bytes → Bytes
  frame payload = file_magic ++ (to_be_bytes 8 (length payload) ++ (sha256 payload ++ payload))

  -- What `read` checks of a file's bytes.
  unfoldable pub unframe : Bytes → Result JournalError Bytes
  unfolding from_be
  unframe bytes = do
    guard
        (leb file_header (length bytes)
          && leb (length bytes) (max_payload + file_header)
          && bytes_eq (take 8 bytes) file_magic)
        corrupt
    guard
        (from_be 0 (take 8 (drop 8 bytes)) == length (drop file_header bytes)
          && bytes_eq (sha256 (drop file_header bytes)) (take 32 (drop 16 bytes)))
        corrupt
    ok (drop file_header bytes)

take_front : {A : Type 0} (k : ℕ) (xs ys : List A) → length xs ≡ k → take k (xs ++ ys) ≡ xs
take_front k xs ys h = subst (λ n. take n (xs ++ ys) ≡ xs) h (take-append xs ys)

drop_front : {A : Type 0} (k : ℕ) (xs ys : List A) → length xs ≡ k → drop k (xs ++ ys) ≡ ys
drop_front k xs ys h = subst (λ n. drop n (xs ++ ys) ≡ ys) h (drop-append xs ys)

drop_past : {A : Type 0} (m : ℕ) (xs ys : List A) → drop (length xs + m) (xs ++ ys) ≡ drop m ys
drop_past m [] ys = ap (λ n. drop n ys) (omega arith)
drop_past {A} m (x ∷ xs) ys = ap (λ n. drop {A = A} n (x ∷ xs ++ ys)) step ∙ drop_past m xs ys
  where
    step : suc (length xs) + m ≡ suc (length xs + m)
    step = omega arith

module _ (sha256 : Bytes → Bytes) where
  -- Bytes that have the parts of a frame.
  unframe-parts :
      (bytes payload : Bytes)
      → leb file_header (length bytes) ≡ true
      → leb (length bytes) (max_payload + file_header) ≡ true
      → take 8 bytes ≡ file_magic
      → from_be 0 (take 8 (drop 8 bytes)) ≡ length payload
      → take 32 (drop 16 bytes) ≡ sha256 payload
      → drop file_header bytes ≡ payload
      → unframe sha256 bytes ≡ ok payload
  unfolding unframe
  unframe-parts bytes payload long short magic size digest body =
      rw
        (
          long,
          short,
          (bytes_eq_iff (take 8 bytes) file_magic).1 magic,
          body,
          size,
          (bytes_eq_iff (sha256 payload) (take 32 (drop 16 bytes))).1 (sym digest),
        )
        (rw (equal (length payload)) refl)
    where
      equal : (n : ℕ) → (n == n) ≡ true
      equal n = ground arith

  -- A frame is read back as its payload.
  pub unframe-frame :
      (payload : Bytes)
      → length (sha256 payload) ≡ 32
      → length payload ≤ max_payload
      → unframe sha256 (frame sha256 payload) ≡ ok payload
  unfolding frame
  unframe-frame payload digest small =
      let after : Bytes = sha256 payload ++ payload in
      let size : Bytes = to_be_bytes 8 (length payload) in
      let eight : length size ≡ 8 = length-to_be_bytes 8 (length payload) in
      let tail : drop 8 (size ++ after) ≡ after = drop_front 8 size after eight in
      let total : length (frame sha256 payload) ≡ 48 + length payload =
        omega (
          arith,
          length-append size after,
          length-append (sha256 payload) payload,
          eight,
          digest,
        ) in
      unframe-parts (frame sha256 payload) payload (ground arith) (ground arith) refl
        (ap (from_be 0) (take_front 8 size after eight)
          ∙ from_be-to_be_bytes 8 (length payload) (omega arith))
        (ap (take 32) tail ∙ take_front 32 (sha256 payload) payload digest)
        (ap (λ n. drop (n + 32) (size ++ after)) (sym eight)
          ∙ drop_past 32 size after
          ∙ drop_front 32 (sha256 payload) payload digest)
