-- ===== src/Journal/Saved.antt =====
-- What a save leaves to be loaded (rust/worker/src/journal.rs).
use mathlib.Core.Path.{subst}
use distributed_execution.Base.{
  ◌≡◌, refl, sym, ap, ◌∙◌, ◌⊎◌, inl, inr, arith, true, false, leb, some, Bytes, bytes_eq,
  bytes_eq_iff, ascii, ◌++◌, length, length-append, take, take-append, Result, ok, err, Bool-cases,
  guarded, required_ok,
}
use distributed_execution.Control.{canonical_uuid, AttemptAuthority, Assignment}
use distributed_execution.Journal.Records.{JournalError, invalid, limit, Record, Texts}
use distributed_execution.Journal.Validity.{validate, identified}
use distributed_execution.Journal.Store.{
  Directory, Wire, Journal, load_attempt, required, save, max_payload, attempt_name, save_checked,
  after_write,
}

appended_equal : (x y s : Bytes) → x ++ s ≡ y ++ s → x ≡ y
appended_equal x y s h =
    let lengths : length x ≡ length y =
      let p = ap length h in omega (arith, length-append x s, length-append y s) in
    sym (take-append x s) ∙ ap (take (length x)) h ∙ rw lengths (take-append y s)

names_differ :
    (other id : Bytes)
    → bytes_eq other id ≡ false
    → bytes_eq (attempt_name other) (attempt_name id) ≡ false
names_differ other id h = elim (Bool-cases (bytes_eq (attempt_name other) (attempt_name id))) [
  | inl same ↦
      let equal : other ≡ id =
        appended_equal other id (ascii ".attempt") ((bytes_eq_iff _ _).0 same) in
      absurd (ground (arith, (bytes_eq_iff other id).1 equal))
  | inr different ↦ different
]

id_canonical :
    (assignment : Assignment) (a : AttemptAuthority) (worker id : Bytes)
    → identified assignment a worker id ≡ true
    → canonical_uuid id ≡ true
unfolding identified
id_canonical assignment a worker id h = ground arith

valid_id :
    (t : Texts) (r : Record) (worker id : Bytes)
    → validate t r worker id ≡ ok tt
    → canonical_uuid id ≡ true
unfolding validate
valid_id t r worker id h =
    let (a, _, h1) = required_ok r.assignment.authority invalid _ h in
    let (named, _) = guarded (identified r.assignment a worker id) invalid _ h1 in
    id_canonical r.assignment a worker id named

module _ (t : Texts) (w : Wire) (d : Directory w.Encoded) where
  -- The other attempts are loaded as before.
  abbrev pub OthersKept : Journal t w d → Journal t w d → Bytes → Type 0
  OthersKept j j' id =
      (other : Bytes) → bytes_eq other id ≡ false → required t w d j' other ≡ required t w d j other

  pub required_at :
      (j : Journal t w d) (id : Bytes) (bytes : w.Encoded) (r : Record)
      → d.read j.directory (attempt_name id) ≡ ok (some bytes)
      → w.encode r ≡ bytes
      → validate t r j.worker_id id ≡ ok tt
      → required t w d j id ≡ ok r
  unfolding required load_attempt
  required_at j id bytes r found encoded valid =
      rw
        (
          valid_id t r j.worker_id id valid,
          found,
          sym encoded,
          w.decode-encode r,
          valid,
          (w.encoded_eq.beq_iff (w.encode r) (w.encode r)).1 refl,
        )
        refl

  pub required_other :
      (j : Journal t w d) (directory : d.State) (other : Bytes)
      → d.read directory (attempt_name other) ≡ d.read j.directory (attempt_name other)
      → required t w d (record j { directory = directory }) other ≡ required t w d j other
  unfolding required load_attempt
  required_other j directory other same = rw same refl

  -- The three ends of a save.
  abbrev pub Saves :
      Journal t w d → Bytes → Record → Result JournalError (Unit {0}) × Journal t w d → Type 0
  Saves j id r end =
      (end.1.worker_id ≡ j.worker_id)
      × (((why : JournalError) × (end.0 ≡ err why) × ((end.1 ≡ j) ⊎ d.Failed end.1.directory))
          ⊎ ((end.0 ≡ ok tt) × (required t w d end.1 id ≡ ok r) × OthersKept j end.1 id))

  written_ends :
      (j : Journal t w d) (id : Bytes) (r : Record)
      → validate t r j.worker_id id ≡ ok tt
      → (end : Result JournalError (Unit {0}) × d.State)
      → d.write j.directory (attempt_name id) (w.encode r) ≡ end
      → Saves j id r (after_write t w d j end)
  written_ends j id r valid (ok done, s) h = (
    refl,
    inr (
      refl,
      required_at (record j { directory = s }) id (w.encode r) r
          (d.read-written j.directory s (attempt_name id) (w.encode r) h) refl valid,
      λ other different. required_other j s other (
          d.read-other j.directory s (attempt_name id) (attempt_name other) (w.encode r) h
            (names_differ other id different)),
    ),
  )
  written_ends j id r valid (err why, s) h =
      elim (d.write-failed j.directory s (attempt_name id) (w.encode r) why h) [
        | inl same ↦
            (refl, inl (why, refl, inl (ap (λ (u : d.State). record j { directory = u }) same)))
        | inr failed ↦ (refl, inl (why, refl, inr failed))
      ]

  checked_ends :
      (j : Journal t w d) (id : Bytes) (r : Record) (outcome : Result JournalError (Unit {0}))
      → validate t r j.worker_id id ≡ outcome
      → Saves j id r (save_checked t w d j id r outcome)
  checked_ends j id r (err why) h = (refl, inl (why, refl, inl refl))
  checked_ends j id r (ok done) h =
      elim (Bool-cases (leb (w.encoded_length (w.encode r)) max_payload)) [
        | inl fits ↦ rw (save_checked, fits) (written_ends j id r h _ refl)
        | inr large ↦ rw (save_checked, large) (refl, inl (limit, refl, inl refl))
      ]

  -- A save leaves the journal as it was, or with a directory that fails, or it succeeds: then the
  -- very record is loaded again, and every other attempt as before.
  pub save-Saves : (j : Journal t w d) (id : Bytes) (r : Record) → Saves j id r (save t w d j id r)
  unfolding save
  save-Saves j id r = checked_ends j id r (validate t r j.worker_id id) refl

-- A record that was saved is loaded again as the very same, and every other attempt as before.
pub save-required :
    (t : Texts) (w : Wire) (d : Directory w.Encoded) (j j' : Journal t w d) (id : Bytes)
    (r : Record)
    → save t w d j id r ≡ (ok tt, j')
    → (required t w d j' id ≡ ok r) × OthersKept t w d j j' id
save-required t w d j j' id r h =
    let (_, ends) = save-Saves t w d j id r in
    elim ends [
      | inl (why, refused, _) ↦ absurd (no_error why (sym refused ∙ ap (λ end. end.0) h))
      | inr (_, loaded, kept) ↦
          subst
            (λ (end : Result JournalError (Unit {0}) × Journal t w d).
              (required t w d end.1 id ≡ ok r) × OthersKept t w d j end.1 id)
            h (loaded, kept)
    ]
  where
    no_error : (why : JournalError) → ◌≡◌ {A = Result JournalError (Unit {0})} (err why) (ok tt) → ⊥
    no_error why e = cc
