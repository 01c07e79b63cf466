-- ===== src/Tests/StorageTests.antt =====
-- The storage in memory, on four samples.
use tinyobs.Base.{
  ℕ, ◌≡◌, refl, List, [], ◌∷◌, some, codes, str_eq, filter, insert, lookup_or, sort_strings,
}
use tinyobs.Metric.{Metric, Labels, counter_type}
use tinyobs.Storage.Memory.Queries.{at_most, query-filter}
use tinyobs.Storage.Memory.Writes.{Call, write_call, delete_call}
use tinyobs.Storage.Memory.{
  Storage, label_matches, labels_match, name_matches, in_range, delete_loop, stats_loop, key_suffix,
  series_key, matches, query, delete, stats,
}
use tinyobs.Storage.{QueryRequest, DeleteOptions, resolution_raw, resolution_5m}

abbrev sample : ℕ → ℕ → Labels → Metric ℕ
sample t v ls = record {
  name = codes "hits";
  type = counter_type;
  value = v;
  label_map = some ls;
  timestamp = t;
}

abbrev five : Labels
five = (codes "__resolution__", codes "5m") ∷ []

abbrev web : Labels
web = (codes "host", codes "web") ∷ []

abbrev samples : List (Metric ℕ)
samples = sample 10 1 web ∷ sample 20 2 [] ∷ sample 20 3 five ∷ sample 30 4 web ∷ []

abbrev storage : Storage ℕ
storage = record { metrics = samples; max_metrics = 5 }

abbrev of_web : QueryRequest
of_web = record { start = 10; end = 30; metric_names = codes "hits" ∷ []; labels = web; limit = 0 }

abbrev late : QueryRequest
late = record { start = 20; end = 40; metric_names = []; labels = []; limit = 0 }

abbrev old_raw : DeleteOptions
old_raw = record { before = 20; resolution = some resolution_raw }

abbrev old_5m : DeleteOptions
old_5m = record { before = 30; resolution = some resolution_5m }

abbrev one_more : List (Metric ℕ)
one_more = sample 40 5 web ∷ []

query_web : query storage of_web ≡ sample 10 1 web ∷ sample 30 4 web ∷ []
unfolding query matches in_range name_matches labels_match label_matches str_eq lookup_or
query_web = refl

query_first : query storage (record late { limit = 2 }) ≡ sample 20 2 [] ∷ sample 20 3 five ∷ []
unfolding query matches in_range name_matches labels_match
query_first = refl

delete_raw :
    (delete storage old_raw).metrics ≡ sample 20 2 [] ∷ sample 20 3 five ∷ sample 30 4 web ∷ []
unfolding delete delete_loop str_eq lookup_or
delete_raw = refl

series : series_key (codes "hits") ((codes "z", codes "1") ∷ web) ≡ codes "hits,host=web,z=1"
unfolding series_key key_suffix sort_strings lookup_or str_eq
series = refl

four_series : stats storage ≡ record {
  total_metrics = 4;
  total_series = 3;
  size_bytes = 400;
  oldest_metric = 10;
  newest_metric = 30;
}
unfolding stats stats_loop insert str_eq series_key key_suffix sort_strings lookup_or
four_series = refl

query-filter_example : query storage of_web ≡ at_most 0 (filter (matches of_web) samples)
query-filter_example = query-filter storage of_web

abbrev calls : List (Call ℕ)
calls = write_call one_more ∷ write_call one_more ∷ delete_call old_raw ∷ write_call one_more ∷ []
