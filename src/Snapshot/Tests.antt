-- ===== src/Snapshot/Tests.antt =====
-- Runs of the refresher over a store in memory, with a codec that keeps the time of a snapshot.
use ticketbutler_proxy.Common.{inr, ℕ, ◌≡◌, refl, Option, none, some, [], ◌∷◌}
use ticketbutler_proxy.Int.{pos, pos_part}
use ticketbutler_proxy.Text.{codes}
use ticketbutler_proxy.Text.Ascii.{ascii_case}
use ticketbutler_proxy.Float.Milli.{milli}
use ticketbutler_proxy.Errors.{Bytes, limit_reader, message, Result, ok, err}
use ticketbutler_proxy.Store.{IsStore}
use ticketbutler_proxy.Store.Memory.{Memory, load, save, memory_store}
use ticketbutler_proxy.Store.Gcs.{
  Object, uploaded, served, Cloud, IsCloud, gcs_store, gcs_store-IsStore,
}
use ticketbutler_proxy.Ticketbutler.Client.{Fetched}
use ticketbutler_proxy.Aggregate.Summary.{Options}
use ticketbutler_proxy.Snapshot.Snapshot.{Snapshot, Codec, build, encode, decode}
use ticketbutler_proxy.Snapshot.Refresher.{State, refresh, after_encode, after_save, current}
use ticketbutler_proxy.Snapshot.Refresher.Laws.{current-refresh}

abbrev pub options : Options
options = record { merch_name_patterns = codes "hoodie" ∷ []; sponsor_ticket_type_pks = [] }

abbrev pub empty_fetch : Fetched ℕ
empty_fetch = record { orders = record { uuid = []; orders = [] }; duration = pos 2000000 }

abbrev pub snapshot_at : ℕ → Snapshot ℕ
snapshot_at n = build empty_fetch (pos n) options

abbrev read_time : Bytes → Result (Snapshot ℕ)
read_time [] = err (message (codes "EOF"))
read_time (n ∷ bytes) = ok (snapshot_at n)

abbrev pub codec : Codec ℕ
codec = record {
  marshal = λ s. ok (pos_part s.fetched_at ∷ []);
  compress = λ body. ok body;
  new_reader = λ bytes. ok bytes;
  unmarshal = read_time;
}

abbrev pub cold : State ℕ Memory
cold = record { cached = none; stored = some (1 ∷ []) }

running : Unit {0}
unfolding build encode decode limit_reader refresh after_encode after_save current load save
running = tt

current-refresh_example :
    current codec memory_store options
      (refresh codec memory_store options (ok empty_fetch) (pos 5) cold).1
    ≡ (ok (snapshot_at 5), (refresh codec memory_store options (ok empty_fetch) (pos 5) cold).1)
unfolding running
current-refresh_example = current-refresh codec memory_store options empty_fetch (pos 5) cold refl

-- One object, and the bytes of an upload; the service refuses to decompress.
abbrev refusing : Bytes → Result Bytes
refusing bytes = err (message (codes "no gzip"))

abbrev pub one_object : Cloud (Bytes × Option Object)
one_object = record {
  connect = ok tt;
  read = λ handle c. served refusing handle.read_compressed c.1;
  write = λ writer bytes c. (ok tt, (bytes, c.1));
  close = λ writer c. (ok tt, (c.0, some (uploaded writer c.0)));
}

pub one_object-IsCloud : IsCloud one_object
one_object-IsCloud = record {
  gunzip = refusing;
  stored = λ bucket object c. c.1;
  read = λ handle c. refl;
  upload = λ writer bytes c h k. refl;
  failed_upload = λ writer bytes c. inr refl;
}

gcs_store-IsStore_example :
    IsStore (gcs_store one_object (record { bucket = codes "b"; object = codes "o" }))
gcs_store-IsStore_example =
    gcs_store-IsStore one_object (record { bucket = codes "b"; object = codes "o" })
      one_object-IsCloud
