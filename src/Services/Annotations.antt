-- ===== src/Services/Annotations.antt =====
-- src/paperless_webdav/services/annotations.py: the index of spooled uploads. A table is its rows;
-- the statements of the functions are written out over it. `down` says that the database raises.
use paperless_webdav.Base.{
  ℕ, ◌≡◌, refl, Bool, true, false, ◌&&◌, Option, none, some, List, [], ◌∷◌, ◌++◌, arith, Eq, ◌==◌,
  if◌then◌else◌, nat_eq, list_eq, take, Text, In, ◌≢◌, any, any-In, any-append,
}
use paperless_webdav.Spool.Attribution.{Confidence}
use paperless_webdav.Spool.Release.{SpooledFile}

-- `AnnotatedUpload.status`
pub data Status : Type 0 where
  pending ingested failed quarantine : Status

Status-discrete : Discrete Status
Status-discrete = hlevel

instance unfoldable pub status_eq : Eq Status
unfolding Status-discrete
status_eq = record { dec = Status-discrete }

pub record AnnotatedUpload : Type 0 where
  pub spool_id : Text
  pub md5 : Text
  pub size : ℕ
  pub source_document_id : Option ℕ
  pub source_confidence : Option Confidence
  pub username : Option Text
  pub status : Status
  pub paperless_document_id : Option ℕ
  pub error : Option Text
  pub ingested_at : Option ℕ

abbrev pub UploadTable : Type 0
UploadTable = List AnnotatedUpload

abbrev pub is_some : Option ℕ → Bool
is_some none = false
is_some (some _) = true

-- The `where` clause of `upload_ingested`.
abbrev pub proves_ingested : Text → AnnotatedUpload → Bool
proves_ingested md5 row =
    (row.md5 == md5) && ((row.status == ingested) && is_some row.paperless_document_id)

unfoldable pub upload_ingested : Bool → Text → UploadTable → Bool
unfolding any
upload_ingested down [] table = false
upload_ingested down (c ∷ md5) table = if down then false else any (proves_ingested (c ∷ md5)) table

abbrev pub has_md5 : Text → AnnotatedUpload → Bool
has_md5 md5 row = row.md5 == md5

abbrev pub new_row : SpooledFile → AnnotatedUpload
new_row f = record {
  spool_id = f.meta.spool_id;
  md5 = f.md5;
  size = f.size;
  source_document_id = f.meta.source_document_id;
  source_confidence = some f.meta.source_confidence;
  username = f.meta.username;
  status = pending;
  paperless_document_id = none;
  error = none;
  ingested_at = none;
}

-- An insert that does nothing where the digest has a row.
unfoldable pub record_pending : Bool → SpooledFile → UploadTable → UploadTable
unfolding any
record_pending down f table =
    if down then table else if any (has_md5 f.md5) table then table else table ++ (new_row f ∷ [])

-- `_update`: the row of the digest is changed, if there is one.
unfoldable pub update :
    Bool → Text → (AnnotatedUpload → AnnotatedUpload) → UploadTable → UploadTable
update down md5 change [] = []
update down md5 change (row ∷ table) =
    let rest = update down md5 change table in
    if down then row ∷ table else if row.md5 == md5 then change row ∷ table else row ∷ rest

unfoldable pub mark_ingested : Bool → Text → ℕ → ℕ → UploadTable → UploadTable
unfolding update
mark_ingested down md5 paperless_document_id now = update down md5 λ row. record row {
  status = ingested;
  paperless_document_id = some paperless_document_id;
  ingested_at = some now;
}

unfoldable pub mark_failed : Bool → Text → Text → Status → UploadTable → UploadTable
unfolding update
mark_failed down md5 error status =
    update down md5 λ row. record row { status = status; error = some (take 2000 error) }

-- `upload_ingested` answers yes only where a row of exactly this digest is marked as ingested and
-- names its Paperless document; never while the database is down, and never for an empty digest.
pub upload_ingested_sound :
    (down : Bool) (md5 : Text) (table : UploadTable)
    → upload_ingested down md5 table ≡ true
    → (down ≡ false)
      × (md5 ≢ [])
      × ((row : AnnotatedUpload) × In row table
          × (row.md5 ≡ md5)
          × (row.status ≡ ingested)
          × (row.paperless_document_id ≢ none))
unfolding upload_ingested
upload_ingested_sound down [] table h = cc
upload_ingested_sound true (c ∷ md5) table h = cc
upload_ingested_sound false (c ∷ md5) table h =
    let (row, m, k) = any-In (proves_ingested (c ∷ md5)) table h in
    (refl, λ e. cc, (row, m, ground arith, ground arith, ground arith))

-- A freshly recorded upload is never taken for an ingested one: recording changes no answer of
-- `upload_ingested`.
pub upload_ingested-record_pending :
    (down down' : Bool) (md5 : Text) (f : SpooledFile) (table : UploadTable)
    → upload_ingested down' md5 (record_pending down f table) ≡ upload_ingested down' md5 table
unfolding upload_ingested record_pending status_eq
upload_ingested-record_pending down down' [] f table = refl
upload_ingested-record_pending down down' (c ∷ md5) f table =
    ground (arith, any-append (proves_ingested (c ∷ md5)) table (new_row f ∷ []))

any-update :
    (md5 : Text) (change : AnnotatedUpload → AnnotatedUpload) (p : AnnotatedUpload → Bool)
    (table : UploadTable)
    → any (has_md5 md5) table ≡ true
    → ((row : AnnotatedUpload) → has_md5 md5 row ≡ true → p (change row) ≡ true)
    → any p (update false md5 change table) ≡ true
unfolding any update
any-update md5 change p [] h k = h
any-update md5 change p (row ∷ table) h k = ground (arith, k row, any-update md5 change p table)

-- Once `record_pending` and `mark_ingested` have gone through, the digest counts as ingested.
pub upload_ingested-mark_ingested :
    (c : ℕ) (md5 : Text) (doc now : ℕ) (f : SpooledFile) (table : UploadTable)
    → f.md5 ≡ c ∷ md5
    → upload_ingested false
        (c ∷ md5)
        (mark_ingested false (c ∷ md5) doc now (record_pending false f table))
      ≡ true
unfolding upload_ingested record_pending mark_ingested
upload_ingested-mark_ingested c md5 doc now f table e =
    any-update (c ∷ md5) _ (proves_ingested (c ∷ md5)) (record_pending false f table)
      (ground (arith, e, any-append (has_md5 (c ∷ md5)) table (new_row f ∷ [])))
      (λ row h. ground arith)
