-- ===== src/Tests/HandlerTests.antt =====
-- The query endpoints.
use tinyobs.Base.{ℕ, zero, suc, arith, ◌≡◌, ◌≢◌, refl, true, some, [], ◌∷◌, codes, Bytes}
use tinyobs.Query.Handler.Answers.{handle_query_execute_no_panic}
use tinyobs.Query.Handler.{
  QueryRequest, absent, malformed, handle_query_execute, refused, last_value, read_step,
}
use tinyobs.Query.Outcome.{ok, panic}
use tinyobs.Query.Reader.Strings.{IsPlain}
use tinyobs.Storage.Memory.{Storage, memory_ops}
use tinyobs.Tests.Data.{ℕ_ops}

abbrev empty : Storage ℕ
empty = record { metrics = []; max_metrics = 5 }

abbrev format6 : ℕ → Bytes
format6 v = v ∷ []

abbrev up : Bytes
up = codes "up"

abbrev request : QueryRequest
request = record { query = up; start = 5; end = 9; step = absent }

up-IsPlain : IsPlain up
up-IsPlain zero e = absurd (omega (arith, e))
up-IsPlain (suc zero) e = absurd (omega (arith, e))
up-IsPlain (suc (suc i)) e = absurd (omega (arith, e))

handle_query_execute_no_panic_example :
    handle_query_execute format6 memory_ops 10 9 empty 20 true (some request) ≢ panic
handle_query_execute_no_panic_example =
    handle_query_execute_no_panic format6 memory_ops 10 9 empty 20 true request up-IsPlain

bad_step :
    handle_query_execute format6 memory_ops 10 9 empty 20 true
      (some (record request { step = malformed }))
    ≡ ok (refused 400)
unfolding handle_query_execute read_step
bad_step = refl

last_of_two :
    last_value format6
      (record { time = 1_000_000_000; value = 3 } ∷ record { time = 2_500_000_000; value = 4 } ∷ [])
    ≡ (2, 4 ∷ []) ∷ []
unfolding last_value
last_of_two = refl
