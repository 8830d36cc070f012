-- ===== src/Journal/Crash.antt =====
-- What a crash of the machine leaves of the directory of rust/worker/src/journal/files.rs.
use mathlib.Core.Path.{subst}
use distributed_execution.Base.{
  ◌≡◌, refl, sym, ap, ◌∙◌, ◌⊎◌, inl, inr, Bool, true, false, not, Option, none, some, [], ◌∷◌, ◌++◌,
  Bytes, bytes_eq, bytes_eq_iff, Bool-cases,
}
use distributed_execution.Journal.Files.{StoredFile, Files, FileStore, pending, lookup}

-- A file whose bytes were not synced has any bytes.
abbrev pub left_file : (garbage : Bytes → Bytes) → Bytes → StoredFile → StoredFile
left_file garbage name file = elim file.synced [
  | true ↦ file
  | false ↦ record file { bytes = garbage name; synced = true }
]

abbrev left_files : (Bytes → Bool) → (Bytes → Bytes) → Files → Files
left_files keep garbage [] = []
left_files keep garbage (entry ∷ files) =
    let later = left_files keep garbage files in
    elim (keep entry.0) [
      | true ↦ (entry.0, left_file garbage entry.0 entry.1) ∷ later
      | false ↦ later
    ]

-- For each name the crash keeps its entry as the calls show it, or as of the last sync of the
-- directory.
abbrev pub crash : (Bytes → Bool) → (Bytes → Bytes) → FileStore → FileStore
crash keep garbage s = record s {
  files = left_files keep garbage s.files ++ left_files (λ name. not (keep name)) garbage s.durable;
}

abbrev left : (Bytes → Bytes) → Bytes → Option StoredFile → Option StoredFile
left garbage name none = none
left garbage name (some file) = some (left_file garbage name file)

lookup-left_files :
    (keep : Bytes → Bool) (garbage : Bytes → Bytes) (name : Bytes) (files : Files)
    → keep name ≡ true
    → lookup name (left_files keep garbage files) ≡ left garbage name (lookup name files)
lookup-left_files keep garbage name [] h = refl
lookup-left_files keep garbage name (entry ∷ files) h = elim (Bool-cases (bytes_eq name entry.0)) [
  | inl here ↦
      let same : name ≡ entry.0 = (bytes_eq_iff name entry.0).0 here in
      let kept : keep entry.0 ≡ true = subst (λ x. keep x ≡ true) same h in
      rw (left_files, kept)
        (rw (lookup, here) (ap (λ x. some (left_file garbage x entry.1)) (sym same)))
  | inr other ↦ elim (Bool-cases (keep entry.0)) [
    | inl kept ↦
        rw (left_files, kept) (rw (lookup, other) (lookup-left_files keep garbage name files h))
    | inr lost ↦
        rw (left_files, lost) (rw (lookup, other) (lookup-left_files keep garbage name files h))
  ]
]

lookup-lost :
    (keep : Bytes → Bool) (garbage : Bytes → Bytes) (name : Bytes) (files : Files)
    → keep name ≡ false
    → lookup name (left_files keep garbage files) ≡ none
lookup-lost keep garbage name [] h = refl
lookup-lost keep garbage name (entry ∷ files) h = elim (Bool-cases (keep entry.0)) [
  | inr lost ↦ rw (left_files, lost) (lookup-lost keep garbage name files h)
  | inl kept ↦
      rw (left_files, kept)
        (elim (Bool-cases (bytes_eq name entry.0)) [
          | inl here ↦ absurd (clash (sym h ∙ ap keep ((bytes_eq_iff name entry.0).0 here) ∙ kept))
          | inr other ↦ rw (lookup, other) (lookup-lost keep garbage name files h)
        ])
]
  where
    clash : false ≡ true → ⊥
    clash e = cc

abbrev first_of : Option StoredFile → Option StoredFile → Option StoredFile
first_of none other = other
first_of (some file) other = some file

lookup-append :
    (name : Bytes) (xs ys : Files)
    → lookup name (xs ++ ys) ≡ first_of (lookup name xs) (lookup name ys)
lookup-append name [] ys = refl
lookup-append name (entry ∷ xs) ys = elim (Bool-cases (bytes_eq name entry.0)) [
  | inl here ↦ rw (lookup, here) refl
  | inr other ↦ rw (lookup, other) (lookup-append name xs ys)
]

first_of-none : (o : Option StoredFile) → first_of o none ≡ o
first_of-none none = refl
first_of-none (some file) = refl

-- The entry after a crash is what is left of one of the two entries before.
lookup-crash :
    (keep : Bytes → Bool) (garbage : Bytes → Bytes) (s : FileStore) (name : Bytes)
    → (lookup name (crash keep garbage s).files ≡ left garbage name (lookup name s.files))
      ⊎ (lookup name (crash keep garbage s).files ≡ left garbage name (lookup name s.durable))
lookup-crash keep garbage s name =
    let parts =
      lookup-append name (left_files keep garbage s.files)
        (left_files (λ x. not (keep x)) garbage s.durable) in
    elim (Bool-cases (keep name)) [
      | inl kept ↦
          let gone : lookup name (left_files (λ x. not (keep x)) garbage s.durable) ≡ none =
            lookup-lost (λ x. not (keep x)) garbage name s.durable (rw kept refl) in
          inl (
            parts
            ∙ ap (first_of (lookup name (left_files keep garbage s.files))) gone
            ∙ first_of-none (lookup name (left_files keep garbage s.files))
            ∙ lookup-left_files keep garbage name s.files kept)
      | inr lost ↦
          let gone : lookup name (left_files keep garbage s.files) ≡ none =
            lookup-lost keep garbage name s.files lost in
          inr (
            parts
            ∙ ap (λ o. first_of o (lookup name (left_files (λ x. not (keep x)) garbage s.durable)))
                gone
            ∙ lookup-left_files (λ x. not (keep x)) garbage name s.durable (rw lost refl))
    ]

-- The bytes of a file are synced, if there is one.
abbrev pub IsSynced : Option StoredFile → Type 0
IsSynced none = Unit {0}
IsSynced (some file) = file.synced ≡ true

-- No crash changes the directory: what is shown is synced, but for the temporary.
abbrev pub IsSettled : FileStore → Type 0
IsSettled s =
    (name : Bytes)
    → bytes_eq name pending ≡ false
    → (lookup name s.durable ≡ lookup name s.files) × IsSynced (lookup name s.files)

left-IsSynced :
    (garbage : Bytes → Bytes) (name : Bytes) (o : Option StoredFile)
    → IsSynced o
    → left garbage name o ≡ o
left-IsSynced garbage name none h = refl
left-IsSynced garbage name (some file) h = rw h refl

-- An entry of which both versions are synced is left as one of them.
pub lookup-crash_synced :
    (keep : Bytes → Bool) (garbage : Bytes → Bytes) (s : FileStore) (name : Bytes)
    → IsSynced (lookup name s.files)
    → IsSynced (lookup name s.durable)
    → (lookup name (crash keep garbage s).files ≡ lookup name s.files)
      ⊎ (lookup name (crash keep garbage s).files ≡ lookup name s.durable)
lookup-crash_synced keep garbage s name h k = elim (lookup-crash keep garbage s name) [
  | inl shown ↦ inl (shown ∙ left-IsSynced garbage name (lookup name s.files) h)
  | inr old ↦ inr (old ∙ left-IsSynced garbage name (lookup name s.durable) k)
]
