-- ===== src/Store/Gcs.antt =====
-- internal/store/gcs.go: the store in a Cloud Storage object. The service behind the client library
-- is a parameter.
use ticketbutler_proxy.Common.{
  ◌≡◌, ◌⊎◌, refl, sym, ap, ◌∙◌, Bool, true, not, ◌&&◌, ◌||◌, Option, none, some, inl, inr, ◌++◌, [],
  if◌then◌else◌,
}
use ticketbutler_proxy.Errors.{Bytes, Err, message, wrapped, not_found, Result, ok, err}
use ticketbutler_proxy.Text.{Text, codes, text_eq}
use ticketbutler_proxy.Store.{Store, IsStore}

-- The end of `ObjectHandle.NewReader` and `io.ReadAll`: the object does not exist, the reader is
-- refused, or what reading gives.
pub data Opened : Type 0 where
  absent : Opened
  refused : Err → Opened
  opened : Result Bytes → Opened

-- A `storage.ObjectHandle`: `ReadCompressed(true)` asks for the bytes of an object as they are stored.
pub record Handle : Type 0 where
  pub bucket : Text
  pub object : Text
  pub read_compressed : Bool

-- A `storage.Writer` with the attributes that are set on it.
pub record Writer : Type 0 where
  pub bucket : Text
  pub object : Text
  pub content_type : Text
  pub content_encoding : Text
  pub cache_control : Text

-- `C` is the state of the service. An upload is a write of the bytes, then a close.
pub record Cloud (C : Type 0) : Type 0 where
  pub connect : Result (Unit {0})
  pub read : Handle → C → Opened
  pub write : Writer → Bytes → C → Result (Unit {0}) × C
  pub close : Writer → C → Result (Unit {0}) × C

-- An object of the service, with the attribute that decides how it is read.
pub record Object : Type 0 where
  pub bytes : Bytes
  pub content_encoding : Text

abbrev pub uploaded : Writer → Bytes → Object
uploaded writer bytes = record { bytes = bytes; content_encoding = writer.content_encoding }

-- What a reader is given of an object: the service decompresses what is marked as gzip, unless it is asked
-- not to.
unfoldable pub served : (Bytes → Result Bytes) → Bool → Option Object → Opened
served gunzip raw none = absent
served gunzip raw (some object) = opened (
    if not raw && text_eq object.content_encoding (codes "gzip")
    then gunzip object.bytes
    else ok object.bytes)

-- What Cloud Storage documents, while it answers: how an object is read, that it holds an upload once its close
-- has succeeded, and that an upload that fails leaves it as it was or has replaced it as a whole.
pub record IsCloud {C : Type 0} (cloud : Cloud C) : Type 0 where
  pub gunzip : Bytes → Result Bytes
  pub stored : Text → Text → C → Option Object
  pub read :
      (handle : Handle) (c : C)
      → cloud.read handle c
        ≡ served gunzip handle.read_compressed (stored handle.bucket handle.object c)
  pub upload :
      (writer : Writer) (bytes : Bytes) (c : C)
      → (cloud.write writer bytes c).0 ≡ ok tt
      → (cloud.close writer (cloud.write writer bytes c).1).0 ≡ ok tt
      → stored writer.bucket writer.object (cloud.close writer (cloud.write writer bytes c).1).1
        ≡ some (uploaded writer bytes)
  pub failed_upload :
      (writer : Writer) (bytes : Bytes) (c : C)
      → (stored writer.bucket writer.object (cloud.close writer (cloud.write writer bytes c).1).1
          ≡ stored writer.bucket writer.object c)
        ⊎ (stored writer.bucket writer.object (cloud.close writer (cloud.write writer bytes c).1).1
            ≡ some (uploaded writer bytes))

pub record Gcs : Type 0 where
  pub bucket : Text
  pub object : Text

module _ {C : Type 0} (cloud : Cloud C) where
  unfoldable pub new_gcs : Text → Text → Result Gcs
  new_gcs bucket object =
      if text_eq bucket [] || text_eq object []
      then err (message (codes "bucket and object are both required"))
      else elim cloud.connect [
        | err e ↦ err (wrapped (codes "connecting to cloud storage") e)
        | ok _ ↦ ok (record { bucket = bucket; object = object })
      ]

  abbrev pub describe : Gcs → Text
  describe g = codes "gs://" ++ (g.bucket ++ (codes "/" ++ g.object))

  abbrev pub handle_of : Gcs → Handle
  handle_of g = record { bucket = g.bucket; object = g.object; read_compressed = true }

  unfoldable pub writer_of : Gcs → Writer
  writer_of g = record {
    bucket = g.bucket;
    object = g.object;
    content_type = codes "application/json";
    content_encoding = codes "gzip";
    cache_control = codes "no-store";
  }

  unfoldable pub load_opened : Gcs → Opened → Result Bytes
  load_opened g absent = err not_found
  load_opened g (refused e) = err (wrapped (codes "reading " ++ describe g) e)
  load_opened g (opened (ok bytes)) = ok bytes
  load_opened g (opened (err e)) = err (wrapped (codes "reading " ++ describe g) e)

  unfoldable pub load : Gcs → C → Result Bytes
  unfolding load_opened
  load g c = load_opened g (cloud.read (handle_of g) c)

  finish : Gcs → Result (Unit {0}) × C → Result (Unit {0}) × C
  finish g (ok _, c) = (ok tt, c)
  finish g (err e, c) = (err (wrapped (codes "writing " ++ describe g) e), c)

  -- A failed write still closes the upload, and its result is dropped.
  after_write : Gcs → Result (Unit {0}) × C → Result (Unit {0}) × C
  unfolding finish writer_of
  after_write g (ok _, c) = finish g (cloud.close (writer_of g) c)
  after_write g (err e, c) =
      (err (wrapped (codes "writing " ++ describe g) e), (cloud.close (writer_of g) c).1)

  unfoldable pub save : Gcs → Bytes → C → Result (Unit {0}) × C
  unfolding after_write writer_of
  save g bytes c = after_write g (cloud.write (writer_of g) bytes c)

  abbrev pub gcs_store : Gcs → Store C
  gcs_store g = record { load = load g; save = save g; describe = describe g }

  module _ (g : Gcs) (h : IsCloud cloud) where
    -- What a load gives is what the object holds.
    load-stored :
        (c : C) (object : Option Object)
        → h.stored g.bucket g.object c ≡ object
        → load g c ≡ load_opened g (served h.gunzip true object)
    unfolding load
    load-stored c object k =
        ap (load_opened g) (h.read (handle_of g) c ∙ ap (served h.gunzip true) k)

    finish-state : (out : Result (Unit {0}) × C) → (finish g out).1 ≡ out.1
    unfolding finish
    finish-state (ok _, c) = refl
    finish-state (err e, c) = refl

    after_write-state :
        (out : Result (Unit {0}) × C) → (after_write g out).1 ≡ (cloud.close (writer_of g) out.1).1
    unfolding after_write
    after_write-state (ok _, c) = finish-state (cloud.close (writer_of g) c)
    after_write-state (err e, c) = refl

    finish-ok : (out : Result (Unit {0}) × C) → (finish g out).0 ≡ ok tt → out.0 ≡ ok tt
    unfolding finish
    finish-ok (ok _, c) k = refl
    finish-ok (err e, c) k = cc

    after_write-ok :
        (out : Result (Unit {0}) × C)
        → (after_write g out).0 ≡ ok tt
        → (out.0 ≡ ok tt) × ((cloud.close (writer_of g) out.1).0 ≡ ok tt)
    unfolding after_write
    after_write-ok (ok _, c) k = (refl, finish-ok (cloud.close (writer_of g) c) k)
    after_write-ok (err e, c) k = absurd cc

    -- An object that was uploaded is loaded as the bytes that it was given, which stay compressed.
    load-uploaded :
        (bytes : Bytes) (c : C)
        → h.stored g.bucket g.object c ≡ some (uploaded (writer_of g) bytes)
        → load g c ≡ ok bytes
    unfolding served load_opened
    load-uploaded bytes c k = load-stored c (some (uploaded (writer_of g) bytes)) k

    load-same :
        (c d : C)
        → h.stored g.bucket g.object d ≡ h.stored g.bucket g.object c
        → load g d ≡ load g c
    load-same c d k = load-stored d _ k ∙ sym (load-stored c _ refl)

    stored-save :
        (bytes : Bytes) (c : C)
        → h.stored g.bucket g.object (save g bytes c).1
          ≡ h.stored g.bucket g.object
              (cloud.close (writer_of g) (cloud.write (writer_of g) bytes c).1).1
    unfolding save
    stored-save bytes c =
        ap (h.stored g.bucket g.object) (after_write-state (cloud.write (writer_of g) bytes c))

    load-saved :
        (bytes : Bytes) (c : C) → (save g bytes c).0 ≡ ok tt → load g (save g bytes c).1 ≡ ok bytes
    unfolding save writer_of
    load-saved bytes c saved =
        let done = after_write-ok (cloud.write (writer_of g) bytes c) saved in
        load-uploaded bytes _ (stored-save bytes c ∙ h.upload (writer_of g) bytes c done.0 done.1)

    load-unsaved :
        (bytes : Bytes) (c : C)
        → (load g (save g bytes c).1 ≡ load g c) ⊎ (load g (save g bytes c).1 ≡ ok bytes)
    unfolding writer_of
    load-unsaved bytes c = elim (h.failed_upload (writer_of g) bytes c) [
      | inl same ↦ inl (load-same c _ (stored-save bytes c ∙ same))
      | inr whole ↦ inr (load-uploaded bytes _ (stored-save bytes c ∙ whole))
    ]

  -- Where the service keeps what it documents, the store over it keeps the contract of a store: after a
  -- successful save a load returns the bytes that were saved, as they are, though the object is marked
  -- as gzip; after a failed one it returns these, or what it returned before.
  pub gcs_store-IsStore : (g : Gcs) → IsCloud cloud → IsStore (gcs_store g)
  gcs_store-IsStore g h = record {
    load-save = load-saved g h;
    load-failed = λ bytes c e failed. load-unsaved g h bytes c;
  }
