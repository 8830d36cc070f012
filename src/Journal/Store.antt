-- ===== src/Journal/Store.antt =====
-- Loading and saving a record: `Journal`, `load_attempt`, `required` and `save` of
-- rust/worker/src/journal.rs. The directory is an interface that journal/files.rs implements;
-- prost's encoding is a parameter.
use distributed_execution.Base.{
  ℕ, true, false, leb, Option, none, some, Bytes, bytes_eq, ascii, ◌++◌, ◌≡◌, ◌⊎◌, Result, ok, err,
  ◌>>=◌, ◌>>◌, guard, ok_or, map_err, Eq, equals,
}
use distributed_execution.Control.{canonical_uuid}
use distributed_execution.Journal.Records.{JournalError, invalid, corrupt, limit, Record, Texts}
use distributed_execution.Journal.Validity.{validate}

-- What the journal uses of its directory, and what it relies on: a file that was written is read
-- back, a write leaves the other files as they are, and after a failed write the directory is as
-- before or fails every read.
pub record Directory (Payload : Type 0) : Type 1 where
  pub State : Type 0
  pub read : State → (name : Bytes) → Result JournalError (Option Payload)
  pub write : State → (name : Bytes) → Payload → Result JournalError (Unit {0}) × State
  pub Failed : State → Type 0
  pub read-written :
      (s s' : State) (name : Bytes) (payload : Payload)
      → write s name payload ≡ (ok tt, s')
      → read s' name ≡ ok (some payload)
  pub read-other :
      (s s' : State) (name other : Bytes) (payload : Payload)
      → write s name payload ≡ (ok tt, s')
      → bytes_eq other name ≡ false
      → read s' other ≡ read s other
  pub write-failed :
      (s s' : State) (name : Bytes) (payload : Payload) (why : JournalError)
      → write s name payload ≡ (err why, s')
      → (s' ≡ s) ⊎ Failed s'
  pub read-failed :
      (s : State) (name : Bytes) → Failed s → (why : JournalError) × (read s name ≡ err why)

-- prost's encoding of a record: byte strings, of which the journal looks at the length and whether
-- two are the same. Decoding gives back what was encoded.
pub record Wire : Type 1 where
  pub Encoded : Type 0
  pub encoded_length : Encoded → ℕ
  pub encoded_eq : Eq Encoded
  pub encode : Record → Encoded
  pub decode : Encoded → Option Record
  pub decode-encode : (r : Record) → decode (encode r) ≡ some r

-- `files::MAX_PAYLOAD`
abbrev pub max_payload : ℕ
max_payload = 5_242_880

-- What is done with a record that was loaded: it stays, or another is saved in its place.
pub data Change (A : Type 0) : Type 0 where
  keep : A → Change A
  replace_by : A → Record → Change A

abbrev pub attempt_name : Bytes → Bytes
attempt_name id = id ++ ascii ".attempt"

module _ (t : Texts) (w : Wire) (d : Directory w.Encoded) where
  pub record Journal : Type 0 where
    pub directory : d.State
    pub worker_id : Bytes
    pub incarnation : Option Bytes

  abbrev pub checked_record :
      Journal → Bytes → Option w.Encoded → Result JournalError (Option Record)
  checked_record j id none = ok none
  checked_record j id (some bytes) = do
    r ← ok_or (w.decode bytes) corrupt
    map_err (λ why. corrupt) (validate t r j.worker_id id)
    guard (equals ⦃e = w.encoded_eq⦄ (w.encode r) bytes) corrupt
    ok (some r)

  unfoldable pub load_attempt : Journal → Bytes → Result JournalError (Option Record)
  load_attempt j id = do
    guard (canonical_uuid id) invalid
    found ← d.read j.directory (attempt_name id)
    checked_record j id found

  unfoldable pub required : Journal → Bytes → Result JournalError Record
  unfolding load_attempt
  required j id = do found ← load_attempt j id; ok_or found invalid

  abbrev pub after_write :
      Journal → Result JournalError (Unit {0}) × d.State → Result JournalError (Unit {0}) × Journal
  after_write j (outcome, directory) = (outcome, record j { directory = directory })

  abbrev pub save_checked :
      Journal
      → Bytes
      → Record
      → Result JournalError (Unit {0})
      → Result JournalError (Unit {0}) × Journal
  save_checked j id r (err why) = (err why, j)
  save_checked j id r (ok done) = elim (leb (w.encoded_length (w.encode r)) max_payload) [
    | true ↦ after_write j (d.write j.directory (attempt_name id) (w.encode r))
    | false ↦ (err limit, j)
  ]

  unfoldable pub save : Journal → Bytes → Record → Result JournalError (Unit {0}) × Journal
  save j id r = save_checked j id r (validate t r j.worker_id id)

  -- The answer that goes with a save.
  abbrev pub answered :
      {A : Type 0} → A → Result JournalError (Unit {0}) × Journal → Result JournalError A × Journal
  answered a (ok done, j) = (ok a, j)
  answered a (err why, j) = (err why, j)

  abbrev pub perform :
      {A : Type 0}
      → Journal
      → Bytes
      → Result JournalError (Change A)
      → Result JournalError A × Journal
  perform j id (err why) = (err why, j)
  perform j id (ok (keep a)) = (ok a, j)
  perform j id (ok (replace_by a r)) = answered a (save j id r)

  abbrev pub perform_required :
      {A : Type 0}
      → Journal
      → Bytes
      → (Record → Result JournalError (Change A))
      → Result JournalError Record
      → Result JournalError A × Journal
  perform_required j id change (err why) = (err why, j)
  perform_required j id change (ok r) = perform j id (change r)

  -- `let mut record = self.required(id)?; …; self.save(id, &record)`
  unfoldable pub update_record :
      {A : Type 0}
      → Journal
      → Bytes
      → (Record → Result JournalError (Change A))
      → Result JournalError A × Journal
  unfolding required save
  update_record j id change = perform_required j id change (required j id)
