-- ===== src/Database.antt =====
-- pkg/database: typed key-value buckets in one file (bolt.go) behind the interface of database.go.
-- The file itself is the bolt library's and a parameter: `BoltLib` has one field for each
-- transaction that bolt.go makes, and `BoltLaws` what bolt documents of them, by the finite map
-- `entry` from keys to values that each bucket holds. A transaction may fail, and then changes
-- nothing. JSON is the parameter `Codec`.
pub mod Laws
pub mod RoundTrip
pub mod Writes
use uk8s_cni_vpc.Prelude.{
  ℕ, zero, suc, ◌+◌, ◌-◌, ◌<◌, String, ◌≡◌, ◌≢◌, Bool, true, false, not, ◌&&◌, Option, none, some,
  List, [], ◌∷◌, ◌==◌, if◌then◌else◌, length, All, concat,
}
use uk8s_cni_vpc.Result.{Result, ok, err, eof, not_found, failure, is_ok}
use uk8s_cni_vpc.Step.{Step, pure, raise, lift, or_else, relabel, ◌>>=◌, ◌>>◌}

pub record BoltLib : Type 1 where
  pub File : Type 0
  pub Bytes : Type 0
  -- `len(data) == 0`
  pub is_empty : Bytes → Bool
  -- `db.Update` with `CreateBucketIfNotExists`, `Put` and `Delete`
  pub create_bucket : String → Step File (Unit {0})
  pub put : String → String → Bytes → Step File (Unit {0})
  pub delete : String → String → Step File (Unit {0})
  -- `db.View` with `Get`, `Cursor.First`, the whole cursor, and `Stats().KeyN`
  pub get : String → String → Step File (Option Bytes)
  pub first : String → Step File (Option (String × Bytes))
  pub all : String → Step File (List (String × Bytes))
  pub key_count : String → Step File ℕ

abbrev pub is_some {ℓ} : {A : Type ℓ} → Option A → Bool
is_some none = false
is_some (some a) = true

pub record BoltLaws (b : BoltLib) : Type 0 where
  pub entry : b.File → String → String → Option b.Bytes
  pub size : b.File → String → ℕ
  -- a transaction that fails, or that reads, changes nothing
  pub create_bucket_keeps :
      (n : String) (f : b.File) (m k : String) → entry (b.create_bucket n f).1 m k ≡ entry f m k
  pub create_bucket_size :
      (n : String) (f : b.File) (m : String) → size (b.create_bucket n f).1 m ≡ size f m
  pub put_fails :
      (n k : String) (v : b.Bytes) (f : b.File)
      → is_ok (b.put n k v f).0 ≡ false
      → (b.put n k v f).1 ≡ f
  pub delete_fails :
      (n k : String) (f : b.File) → is_ok (b.delete n k f).0 ≡ false → (b.delete n k f).1 ≡ f
  pub get_keeps : (n k : String) (f : b.File) → (b.get n k f).1 ≡ f
  pub first_keeps : (n : String) (f : b.File) → (b.first n f).1 ≡ f
  pub all_keeps : (n : String) (f : b.File) → (b.all n f).1 ≡ f
  pub key_count_keeps : (n : String) (f : b.File) → (b.key_count n f).1 ≡ f
  -- what a transaction writes
  pub put_entry :
      (n k : String) (v : b.Bytes) (f : b.File) (m j : String)
      → (b.put n k v f).0 ≡ ok tt
      → entry (b.put n k v f).1 m j ≡ (if n == m && k == j then some v else entry f m j)
  pub delete_entry :
      (n k : String) (f : b.File) (m j : String)
      → (b.delete n k f).0 ≡ ok tt
      → entry (b.delete n k f).1 m j ≡ (if n == m && k == j then none else entry f m j)
  pub delete_size :
      (n k : String) (f : b.File) (m : String)
      → (b.delete n k f).0 ≡ ok tt
      → size (b.delete n k f).1 m
        ≡ (if n == m && is_some (entry f n k) then size f m - 1 else size f m)
  pub put_size :
      (n k : String) (v : b.Bytes) (f : b.File) (m : String)
      → (b.put n k v f).0 ≡ ok tt
      → size (b.put n k v f).1 m
        ≡ (if n == m && not (is_some (entry f n k)) then size f m + 1 else size f m)
  -- what a transaction reads
  pub get_entry :
      (n k : String) (f : b.File) (r : Option b.Bytes) → (b.get n k f).0 ≡ ok r → r ≡ entry f n k
  pub first_none : (n : String) (f : b.File) → (b.first n f).0 ≡ ok none → size f n ≡ 0
  pub first_some :
      (n k : String) (v : b.Bytes) (f : b.File)
      → (b.first n f).0 ≡ ok (some (k, v))
      → (entry f n k ≡ some v) × ((k == "") ≡ false)
  pub all_entries :
      (n : String) (f : b.File) (kvs : List (String × b.Bytes))
      → (b.all n f).0 ≡ ok kvs
      → All (λ kv. entry f n kv.0 ≡ some kv.1) kvs × (length kvs ≡ size f n)
  pub key_count_size : (n : String) (f : b.File) (c : ℕ) → (b.key_count n f).0 ≡ ok c → c ≡ size f n
  pub size_pos : (n k : String) (f : b.File) (v : b.Bytes) → entry f n k ≡ some v → 0 < size f n

-- `json.Marshal` and `json.Unmarshal` at the type of the values.
pub record Codec (Bytes T : Type 0) : Type 0 where
  pub marshal : T → Result Bytes
  pub unmarshal : Bytes → Result T

pub record CodecLaws (b : BoltLib) {T : Type 0} (c : Codec b.Bytes T) : Type 0 where
  pub round_trip : (v : T) (d : b.Bytes) → c.marshal v ≡ ok d → c.unmarshal d ≡ ok v
  pub not_empty : (v : T) (d : b.Bytes) → c.marshal v ≡ ok d → b.is_empty d ≡ false

pub record KeyValue (T : Type 0) : Type 0 where
  pub key : String
  pub value : T

module _ (b : BoltLib) where
  -- `NewBolt`: the bucket is made if it is not there; its name is the handle.
  unfoldable pub new_bolt : String → Step b.File String
  new_bolt bucket = or_else (b.create_bucket bucket) "boltdb create bucket" >>= λ _. pure bucket

  unfoldable pub delete : String → String → Step b.File (Unit {0})
  delete bucket key = or_else (b.delete bucket key) "Delete boltdb"

  unfoldable pub count : String → Step b.File ℕ
  count bucket = or_else (b.key_count bucket) "read boltdb length"

module _ (b : BoltLib) {T : Type 0} (c : Codec b.Bytes T) where
  unfoldable pub decode_value : b.Bytes → Result T
  decode_value raw = relabel "decode boltdb value" (c.unmarshal raw)

  unfoldable pub put : String → String → T → Step b.File (Unit {0})
  put bucket key value = do
    raw ← lift (relabel "marshal boltdb value" (c.marshal value))
    or_else (b.put bucket key raw) "write boltdb"

  unfoldable pub decode_found : Option b.Bytes → Result T
  unfolding decode_value
  decode_found none = err not_found
  decode_found (some raw) = if b.is_empty raw then err not_found else decode_value raw

  unfoldable pub get : String → String → Step b.File T
  unfolding decode_found
  get bucket key = do raw ← or_else (b.get bucket key) "read boltdb"; lift (decode_found raw)

  unfoldable pub pop_found : String → Option (String × b.Bytes) → Step b.File (KeyValue T)
  unfolding decode_value delete
  pop_found bucket none = raise eof
  pop_found bucket (some (key, raw)) =
      if key == ""
      then raise eof
      else (lift (decode_value raw) >>= λ value.
          or_else (delete b bucket key) "delete kv after pop" >>= λ _.
          pure (record { key = key; value = value }))

  unfoldable pub pop : String → Step b.File (KeyValue T)
  unfolding pop_found
  pop bucket = do found ← or_else (b.first bucket) "read boltdb"; pop_found bucket found

  unfoldable pub decode_all : List (String × b.Bytes) → Result (List (KeyValue T))
  unfolding decode_value
  decode_all [] = ok []
  decode_all ((key, raw) ∷ rest) = elim (decode_value raw) [
    | err e ↦ err e
    | ok value ↦ elim (decode_all rest) [
      | err e ↦ err e
      | ok kvs ↦ ok (record { key = key; value = value } ∷ kvs)
    ]
  ]

  unfoldable pub list : String → Step b.File (List (KeyValue T))
  unfolding decode_all
  list bucket = do
    pairs ← or_else (b.all bucket) "List boltdb"
    lift (relabel "List boltdb" (decode_all pairs))

-- `PodKey` of database.go.
unfoldable pub pod_key : String → String → String → String
pod_key pod_name pod_ns sandbox_id =
    concat pod_name (concat "-" (concat pod_ns (concat "-" sandbox_id)))

pub values : {T : Type 0} → List (KeyValue T) → List T
values [] = []
values (kv ∷ kvs) = kv.value ∷ values kvs
