-- ===== src/Storage/Badger/Statistics.antt =====
-- pkg/storage/badger/badger.go, `Stats`.
use tinyobs.Base.{
  ℕ, suc, ◌+◌, ◌%◌, ◌&&◌, ◌||◌, List, [], ◌∷◌, ◌++◌, Option, none, some, Bytes, Dict, if◌then◌else◌,
  ltb, leb, ◌==◌, length, any, take,
}
use tinyobs.Metric.{Time}
use tinyobs.Query.Outcome.{Outcome, ok, ◌>>=◌}
use tinyobs.Query.Reader.{slice}
use tinyobs.Storage.Badger.{Library, Context}
use tinyobs.Storage.Badger.Keys.{read_uint, uint16, parse_key}
use tinyobs.Storage.{Stats}

-- The variables of the transaction; the set of hashes is a list without repetition.
pub record Survey : Type 0 where
  pub total : ℕ
  pub series : List ℕ
  pub oldest : Time
  pub newest : Time

-- `seriesMap[seriesHash] = true`
unfoldable pub add_hash : ℕ → List ℕ → List ℕ
add_hash h hs = if any (λ g. g == h) hs then hs else hs ++ h ∷ []

-- The hash in a key that is long enough for one.
unfoldable pub count_series : Bytes → List ℕ → Outcome (List ℕ)
count_series key hs =
    let name_len = read_uint 0 (take 2 key) in
    if leb 18 (length key) && leb (uint16 (2 + name_len + 16)) (length key)
    then (slice key (uint16 (2 + name_len)) (uint16 (2 + name_len + 8)) >>= λ part.
        ok (add_hash (read_uint 0 part) hs))
    else ok hs

unfoldable pub survey_key : Survey → Bytes → Outcome Survey
survey_key s key = parse_key key >>= λ parsed. count_series key s.series >>= λ series. ok (record {
  total = suc s.total;
  series = series;
  oldest = if s.oldest == 0 || ltb parsed.1 s.oldest then parsed.1 else s.oldest;
  newest = if s.newest == 0 || ltb s.newest parsed.1 then parsed.1 else s.newest;
})

-- The loop over the keys: `none` where the context was cancelled.
unfoldable pub survey_items : Context → Survey → Dict Bytes → Outcome (Option Survey)
survey_items ctx s [] = ok (some s)
survey_items ctx s ((k, v) ∷ rest) =
    let n = suc s.total in
    if n % 1000 == 0 && ctx.cancelled n
    then ok none
    else (survey_key s k >>= λ s'. survey_items ctx s' rest)

-- `size` is the sum that `db.Size` gives.
unfoldable pub stats : {V D : Type 0} → Library V D → Context → ℕ → D → Outcome (Option Stats)
stats lib ctx size d =
    let empty : Survey = record { total = 0; series = []; oldest = 0; newest = 0 } in
    if ctx.expired || ctx.interrupted
    then ok none
    else (survey_items ctx empty (lib.items d) >>= λ found. elim found [
      | none ↦ ok none
      | some s ↦ ok (
          some (record {
            total_metrics = s.total;
            total_series = length s.series;
            size_bytes = size;
            oldest_metric = s.oldest;
            newest_metric = s.newest;
          }))
    ])
