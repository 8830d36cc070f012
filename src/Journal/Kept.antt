-- ===== src/Journal/Kept.antt =====
-- What the operations of rust/worker/src/journal/uploads.rs, journal/uploads/multipart.rs and
-- journal/logs.rs keep of the saved uploads and segments.
use distributed_execution.Base.{
  ◌≡◌, refl, sym, ◌∙◌, ◌⊎◌, inl, inr, Bool, true, Option, some, List, [], Bytes, Extends-refl,
  Within, Extends-Within, Within-trans,
}
use distributed_execution.Control.{
  CompletedPart, FinalizeUploadRequest, FinalizeUploadResponse, RegisterLogSegmentRequest,
}
use distributed_execution.Journal.Records.{OutputUpload, LogUpload}

-- A granted upload stays at its object.
abbrev pub Scoped : (upload_id key upload_id' key' : Bytes) → Type 0
Scoped upload_id key upload_id' key' = (upload_id ≡ []) ⊎ ((upload_id' ≡ upload_id) × (key' ≡ key))

-- What was recorded stays recorded.
abbrev pub Stays : {A : Type 0} → Option A → Option A → Type 0
Stays {A} o o' = (a : A) → o ≡ some a → o' ≡ some a

pub Scoped-trans :
    {a b a' b' a'' b'' : Bytes} → Scoped a b a' b' → Scoped a' b' a'' b'' → Scoped a b a'' b''
Scoped-trans (inl unbound) later = inl unbound
Scoped-trans (inr (same, at)) (inl unbound) = inl (sym same ∙ unbound)
Scoped-trans (inr (same, at)) (inr (again, there)) = inr (again ∙ same, there ∙ at)

-- A part stays with its content, and with its tag once that is known.
pub record PartAdvances (p p' : CompletedPart) : Type 0 where
  pub number : p'.number ≡ p.number
  pub sha256 : p'.sha256 ≡ p.sha256
  pub etag : (p.etag ≡ []) ⊎ (p'.etag ≡ p.etag)

pub part_stays : (p : CompletedPart) → PartAdvances p p
part_stays p = record { number = refl; sha256 = refl; etag = inr refl }

pub PartAdvances-trans :
    (p q r : CompletedPart) → PartAdvances p q → PartAdvances q r → PartAdvances p r
PartAdvances-trans p q r a b = record {
  number = b.number ∙ a.number;
  sha256 = b.sha256 ∙ a.sha256;
  etag = elim a.etag [
    | inl unknown ↦ inl unknown
    | inr same ↦ elim b.etag [
      | inl unknown ↦ inl (sym same ∙ unknown)
      | inr again ↦ inr (again ∙ same)
    ]
  ];
}

pub record OutputAdvances (u u' : OutputUpload) : Type 0 where
  pub declaration : u'.declaration ≡ u.declaration
  pub scope : Scoped u.upload_id u.object_key u'.upload_id u'.object_key
  pub finalization : Stays u.finalization u'.finalization
  pub response : Stays u.response u'.response
  pub parts : Within PartAdvances u.parts u'.parts

pub parts_stay : (ps : List CompletedPart) → Within PartAdvances ps ps
parts_stay ps = Extends-Within PartAdvances ps ps (Extends-refl PartAdvances part_stays ps)

pub output_stays : (u : OutputUpload) → OutputAdvances u u
output_stays u = record {
  declaration = refl;
  scope = inr (refl, refl);
  finalization = λ f h. h;
  response = λ f h. h;
  parts = parts_stay u.parts;
}

pub OutputAdvances-trans :
    (u v w : OutputUpload) → OutputAdvances u v → OutputAdvances v w → OutputAdvances u w
OutputAdvances-trans u v w a b = record {
  declaration = b.declaration ∙ a.declaration;
  scope = Scoped-trans a.scope b.scope;
  finalization = λ f h. b.finalization f (a.finalization f h);
  response = λ f h. b.response f (a.response f h);
  parts = Within-trans PartAdvances PartAdvances-trans u.parts v.parts w.parts a.parts b.parts;
}

pub record LogAdvances (l l' : LogUpload) : Type 0 where
  pub declaration : l'.declaration ≡ l.declaration
  pub stream : l'.stream ≡ l.stream
  pub first : l'.first_sequence ≡ l.first_sequence
  pub last : l'.last_sequence ≡ l.last_sequence
  pub gaps : l'.gaps ≡ l.gaps
  pub scope : Scoped l.upload_id l.object_key l'.upload_id l'.object_key
  pub finalization : Stays l.finalization l'.finalization
  pub response : Stays l.response l'.response
  pub registration : Stays l.registration l'.registration
  pub registered : l.registered ≡ true → l'.registered ≡ true

pub log_stays : (l : LogUpload) → LogAdvances l l
log_stays l = record {
  declaration = refl;
  stream = refl;
  first = refl;
  last = refl;
  gaps = refl;
  scope = inr (refl, refl);
  finalization = λ f h. h;
  response = λ f h. h;
  registration = λ f h. h;
  registered = λ h. h;
}

-- A segment whose stages go on.
pub log_further :
    (l : LogUpload) (upload_id key : Bytes) (finalization : Option FinalizeUploadRequest)
    (response : Option FinalizeUploadResponse) (registration : Option RegisterLogSegmentRequest)
    (registered : Bool)
    → Scoped l.upload_id l.object_key upload_id key
    → Stays l.finalization finalization
    → Stays l.response response
    → Stays l.registration registration
    → (l.registered ≡ true → registered ≡ true)
    → LogAdvances l (record l {
      upload_id = upload_id;
      object_key = key;
      finalization = finalization;
      response = response;
      registration = registration;
      registered = registered;
    })
log_further l upload_id key finalization response registration registered a b c d e = record {
  declaration = refl;
  stream = refl;
  first = refl;
  last = refl;
  gaps = refl;
  scope = a;
  finalization = b;
  response = c;
  registration = d;
  registered = e;
}

pub LogAdvances-trans : (k l m : LogUpload) → LogAdvances k l → LogAdvances l m → LogAdvances k m
LogAdvances-trans k l m a b = record {
  declaration = b.declaration ∙ a.declaration;
  stream = b.stream ∙ a.stream;
  first = b.first ∙ a.first;
  last = b.last ∙ a.last;
  gaps = b.gaps ∙ a.gaps;
  scope = Scoped-trans a.scope b.scope;
  finalization = λ f h. b.finalization f (a.finalization f h);
  response = λ f h. b.response f (a.response f h);
  registration = λ f h. b.registration f (a.registration f h);
  registered = λ h. b.registered (a.registered h);
}
