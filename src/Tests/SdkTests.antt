-- ===== src/Tests/SdkTests.antt =====
-- The SDK: labels, a counter, a histogram and some runs of the batcher.
use mathlib.Core.Option.{some-injective}
use tinyobs.Base.{
  ◌<◌, ap, sym, map, Option, some, Bool, All, str_eq, ℕ, ◌+◌, ◌≡◌, arith, refl, true, false, List,
  [], ◌∷◌, codes, Bytes, ltb, lookup,
}
use tinyobs.Ingest.Cardinality.{new_cardinality_tracker}
use tinyobs.Ingest.Handler.{no_checker}
use tinyobs.Metric.{Metric, json_form, gauge_type}
use tinyobs.Sdk.Client.{Client}
use tinyobs.Sdk.Paths.{
  normalize_path, replace_ids, replace_uuids, is_uuid, hex_digits, dash, is_hex,
}
use tinyobs.Sdk.Runtime.{Readings, IsNamed, collect, collect-IsNamed}
use tinyobs.Sdk.Transport.Delivery.{ingest_server, Delivered, send-Delivered}
use tinyobs.Sdk.Transport.{HttpTransport, new_http, send}
use tinyobs.Storage.Memory.{new}
use tinyobs.Query.Outcome.{panic}
use tinyobs.Sdk.Batcher
use tinyobs.Sdk.Batcher.Conservation.{IsConserved, Steps-IsConserved}
use tinyobs.Sdk.Batcher.Flushing.{HoldsFlag, Steps-HoldsFlag}
use tinyobs.Sdk.Batcher.{Batcher, Step, Steps, stay, then_step}
use tinyobs.Sdk.Collectors.Totals.{Addition, total_from}
use tinyobs.Sdk.Histogram.Counts.{
  Observation, run_observations, values_of, set_for, run_observations-set_for,
}
use tinyobs.Sdk.Histogram.Panics.{flush-run_observations}
use tinyobs.Sdk.Histogram.{default_buckets, new_histogram, flush, trim_right}
use tinyobs.Sdk.Labels.{make_key, label_suffix}
use tinyobs.Tests.Data.{ℕ_ops}

abbrev route : List Bytes
route = codes "path" ∷ codes "/api" ∷ []

trimmed : trim_right b'.' (trim_right b'0' (codes "1.000")) ≡ codes "1"
unfolding trim_right
trimmed = refl

abbrev additions : List (Addition ℕ)
additions =
    record { time = 1; amount = 2; labels = route }
    ∷ record { time = 2; amount = 5; labels = [] }
    ∷ record { time = 3; amount = 4; labels = route }
    ∷ []

total_six : total_from 0 (codes "path,/api") additions ≡ 6
unfolding make_key label_suffix str_eq
total_six = refl

abbrev observations : List (Observation ℕ)
observations =
    record { value = 7; labels = route }
    ∷ record { value = 1000; labels = [] }
    ∷ record { value = 3; labels = route }
    ∷ []

run_observations-set_for_example :
    lookup (codes "path,/api") (run_observations (new_histogram (codes "wait")) observations).sets
    ≡ set_for default_buckets (values_of (codes "path,/api") observations)
run_observations-set_for_example =
    run_observations-set_for (codes "wait") observations (codes "path,/api")

flush-run_observations_example :
    flush (λ (v : ℕ). codes "1.000") (run_observations (new_histogram (codes "wait")) observations)
    ≡ panic
unfolding make_key label_suffix str_eq
flush-run_observations_example =
    flush-run_observations (λ v. codes "1.000") (codes "wait") observations (omega arith)
      (omega arith)

-- A metric is added and flushed at a tick, and another one is added while the send runs.
abbrev one_sending : Batcher ℕ
one_sending = record {
  metrics = 9 ∷ [];
  flushing = true;
  cancelled = false;
  deciding = 0;
  flushers = 0;
  resetting = 1;
  sending = (8 ∷ []) ∷ [];
  delivered = [];
  failed = [];
  added = 8 ∷ 9 ∷ [];
}

flushed_one : Steps 10 Batcher.new one_sending
unfolding Batcher.add Batcher.flush Batcher.compare_and_swap
flushed_one =
    then_step
      (then_step (then_step (then_step stay (Step.added 8 Batcher.new)) (Step.ticked _))
        (Step.flushed _ 0 refl))
      (Step.added 9 _)

Steps-IsConserved_example : IsConserved (λ n. ltb n 9) one_sending
Steps-IsConserved_example = Steps-IsConserved (λ n. ltb n 9) flushed_one

Steps-HoldsFlag_example : HoldsFlag one_sending
Steps-HoldsFlag_example = Steps-HoldsFlag flushed_one

abbrev load : Metric ℕ
load = record {
  name = codes "load";
  type = gauge_type;
  value = 3;
  label_map = some [];
  timestamp = 5;
}

abbrev transport : HttpTransport
transport = new_http (codes "http://localhost:8080/v1/ingest") []

-- A body is the list that is sent.
abbrev marshal_all : List (Metric ℕ) → Option (List (Metric ℕ))
marshal_all ms = some ms

abbrev decode_all : List (Metric ℕ) → Option (List (Metric ℕ))
decode_all ms = some (map json_form ms)

-- A name in ASCII.
abbrev IsAscii : Metric ℕ → Type 0
IsAscii m = All (λ c. c < 128) m.name

abbrev any_url : Bytes → Bool
any_url url = true

send-Delivered_example :
    Delivered marshal_all decode_all any_url
      (λ i. 100 + i)
      no_checker
      100
      (load ∷ [])
      new
      (send marshal_all any_url
        (ingest_server marshal_all decode_all any_url (λ i. 100 + i) no_checker 100)
        transport
        (load ∷ [])
        (new_cardinality_tracker 0, new))
send-Delivered_example =
    send-Delivered marshal_all decode_all any_url (λ i. 100 + i) no_checker 100 IsAscii
      (λ ms body text e. ap decode_all (some-injective _ _ (sym e))) transport load []
      (new_cardinality_tracker 0) new (omega arith)

abbrev user_path : Bytes
user_path = codes "/api/users/42/posts/550e8400-E29b-41d4-a716-446655440000/7x"

normal_path : normalize_path user_path ≡ codes "/api/users/{id}/posts/{id}/{id}x"
unfolding normalize_path replace_ids replace_uuids is_uuid hex_digits dash is_hex
normal_path = refl

abbrev service_client : Client ℕ
service_client = record {
  config = record { service = codes "shop"; api_key = []; endpoint = []; flush_every = 5 };
  counters = [];
  gauges = [];
  histograms = [];
  started = true;
}

abbrev readings : Readings
readings = record {
  num_goroutine = 8;
  num_cpu = 4;
  heap_alloc = 1000;
  stack_inuse = 100;
  sys = 2000;
  num_gc = 1;
  pause_total_ns = 5;
}

collect-IsNamed_example : All (IsNamed (codes "shop")) (collect service_client 9 readings)
collect-IsNamed_example = collect-IsNamed service_client 9 readings (omega arith)
