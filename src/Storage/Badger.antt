-- ===== src/Storage/Badger.antt =====
-- pkg/storage/badger/badger.go. BadgerDB, the JSON codec and the hash are parameters: a `Library`.
-- A transaction works on the database that it began with; where it fails, that one stays.
pub mod Keys
pub mod Options
pub mod Reads
pub mod Statistics
pub mod Laws
pub mod Removals
pub mod Prefixes
pub mod Scans
pub mod Names
pub mod Writing
pub mod Deleting
use tinyobs.Base.{
  ℕ, zero, suc, ◌+◌, ◌%◌, Bool, true, false, not, ◌&&◌, List, [], ◌∷◌, ◌++◌, Option, none, some,
  Bytes, Dict, str_eq, if◌then◌else◌, ltb, leb, ◌==◌,
}
use tinyobs.Metric.{Time, Metric, read_labels}
use tinyobs.Query.Outcome.{Outcome, ok, panic, ◌>>=◌}
use tinyobs.Storage.Badger.Keys.{make_key, parse_key}
use tinyobs.Storage.Memory.{resolution_of}
use tinyobs.Storage.{DeleteOptions}

-- What the backend calls: a transaction's `Set` and `Delete`, which may refuse, the items that an
-- iterator meets (all of them, or those of a prefix), `json.Marshal`, `json.Unmarshal`, and
-- `xxhash.Sum64String`.
pub record Library (V D : Type 0) : Type 0 where
  pub set : Bytes → Bytes → D → Option D
  pub remove : Bytes → D → Option D
  pub items : D → Dict Bytes
  pub scan : Bytes → D → Dict Bytes
  pub encode : Metric V → Option Bytes
  pub decode : Bytes → Option (Metric V)
  pub hash : Bytes → ℕ

-- What a call finds of its context: expired at the start, cancelled at a check within the
-- transaction (by the number of the item), or done before the transaction has answered; and whether
-- the database commits the transaction, which it may refuse.
pub record Context : Type 0 where
  pub expired : Bool
  pub cancelled : ℕ → Bool
  pub interrupted : Bool
  pub commits : Bool

module _ {V D : Type 0} (lib : Library V D) where
  -- The loop of `Delete` that deletes the keys.
  unfoldable pub remove_all : List Bytes → D → Option D
  remove_all [] d = some d
  remove_all (k ∷ ks) d = elim (lib.remove k d) [ none ↦ none | some d' ↦ remove_all ks d' ]

  unfoldable pub remove_found : D → Option (List Bytes) → Option D
  remove_found d none = none
  remove_found d (some found) = remove_all found d

module _ {V D : Type 0} (lib : Library V D) (ctx : Context) where
  -- The loop of `Write`, from the metric with the number `i`.
  unfoldable pub write_txn : ℕ → D → List (Metric V) → Option D
  write_txn i d [] = some d
  write_txn i d (m ∷ ms) = if i % 100 == 0 && ctx.cancelled i then none else (elim (lib.encode m) [
    | none ↦ none
    | some v ↦ elim (lib.set (make_key lib.hash m.name (read_labels m.label_map) m.timestamp) v d) [
      | none ↦ none
      | some d' ↦ write_txn (suc i) d' ms
    ]
  ])

  -- `db.Update`: the database afterwards, and whether the call answers nil. A transaction whose
  -- caller has gone still ends.
  unfoldable pub update : D → Option D → D × Bool
  update d none = (d, false)
  update d (some d') = if ctx.commits then (d', not ctx.interrupted) else (d, false)

  unfoldable pub write : D → List (Metric V) → D × Bool
  write d ms = if ctx.expired then (d, false) else update d (write_txn 0 d ms)

  -- The loop of `Delete` that collects keys: the number of items met, and the keys so far.
  unfoldable pub collect :
      DeleteOptions → ℕ → List Bytes → Dict Bytes → Outcome (Option (List Bytes))
  collect opts n found [] = ok (some found)
  collect opts n found ((k, v) ∷ rest) =
      let skip = collect opts (suc n) found rest in
      let mark = collect opts (suc n) (found ++ k ∷ []) rest in
      if suc n % 1000 == 0 && ctx.cancelled (suc n)
      then ok none
      else (parse_key k >>= λ parsed.
          if not (ltb parsed.1 opts.before) then skip else (elim opts.resolution [
            | none ↦ mark
            | some r ↦ elim (lib.decode v) [
              | none ↦ ok none
              | some m ↦ if not (str_eq (resolution_of m) r) then skip else mark
            ]
          ]))

  unfoldable pub delete : D → DeleteOptions → Outcome (D × Bool)
  delete d opts =
      if ctx.expired
      then ok (d, false)
      else (collect opts 0 [] (lib.items d) >>= λ found. ok (update d (remove_found lib d found)))
