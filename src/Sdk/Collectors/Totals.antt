-- ===== src/Sdk/Collectors/Totals.antt =====
-- pkg/sdk/metrics/counter.go: what a counter holds after a sequence of calls.
use tinyobs.Base.{
  Dict, ◌≡◌, refl, ◌∙◌, ap, List, [], ◌∷◌, ◌++◌, Bytes, if◌then◌else◌, lookup_or, lookup_or-insert,
  str_eq, str_eq_iff, Bool-cases, inl, inr,
}
use tinyobs.Float.{FloatOps}
use tinyobs.Metric.{Metric, Time}
use tinyobs.Sdk.Collectors.{Counter, counter_add, new_counter}
use tinyobs.Sdk.Labels.{make_key}

-- A call of `Add`.
pub record Addition (V : Type 0) : Type 0 where
  pub time : Time
  pub amount : V
  pub labels : List Bytes

module _ {V : Type 0} ⦃F : FloatOps V⦄ where
  -- The calls one after the other, with all that they send.
  unfoldable pub run_additions : Counter V → List (Addition V) → Counter V × List (Metric V)
  run_additions c [] = (c, [])
  run_additions c (a ∷ rest) =
      let (c1, sent) = counter_add a.time a.amount a.labels c in
      let (c2, more) = run_additions c1 rest in (c2, sent ++ more)

  -- The sum of the amounts that are not negative and come with labels of the key `k`.
  abbrev pub total_from : V → Bytes → List (Addition V) → V
  total_from t k [] = t
  total_from t k (a ∷ rest) =
      total_from
        (if F.lt a.amount F.zero_value
          then t
          else if str_eq (make_key a.labels) k
          then F.add t a.amount
          else t)
        k rest

  same_key :
      (key k : Bytes) (v : V) (values : Dict V)
      → (if str_eq key k
          then F.add (lookup_or key F.zero_value values) v
          else lookup_or k F.zero_value values)
        ≡ (if str_eq key k
            then F.add (lookup_or k F.zero_value values) v
            else lookup_or k F.zero_value values)
  same_key key k v values = elim (Bool-cases (str_eq key k)) [
    | inl same ↦
        rw same (ap (λ j. F.add (lookup_or j F.zero_value values) v) ((str_eq_iff key k).0 same))
    | inr other ↦ rw other refl
  ]

  addition_step :
      (c : Counter V) (a : Addition V) (k : Bytes)
      → lookup_or k F.zero_value (counter_add a.time a.amount a.labels c).0.values ≡ (
          if F.lt a.amount F.zero_value
          then lookup_or k F.zero_value c.values
          else if str_eq (make_key a.labels) k
          then F.add (lookup_or k F.zero_value c.values) a.amount
          else lookup_or k F.zero_value c.values)
  unfolding counter_add
  addition_step c a k = elim (Bool-cases (F.lt a.amount F.zero_value)) [
    | inl negative ↦ rw negative refl
    | inr fine ↦ rw fine (
        lookup_or-insert (make_key a.labels) k F.zero_value _ c.values
        ∙ same_key (make_key a.labels) k a.amount c.values)
  ]

  additions_from :
      (c : Counter V) (rest : List (Addition V)) (k : Bytes)
      → lookup_or k F.zero_value (run_additions c rest).0.values
        ≡ total_from (lookup_or k F.zero_value c.values) k rest
  unfolding run_additions
  additions_from c [] k = refl
  additions_from c (a ∷ rest) k =
      additions_from (counter_add a.time a.amount a.labels c).0 rest k
      ∙ ap (λ t. total_from t k rest) (addition_step c a k)

  -- After any sequence of calls of `Add` on a new counter, the value of a label combination is the
  -- sum, in their order, of the amounts added with it, without the negative ones.
  pub run_additions-total_from :
      (name : Bytes) (rest : List (Addition V)) (k : Bytes)
      → lookup_or k F.zero_value (run_additions (new_counter name) rest).0.values
        ≡ total_from F.zero_value k rest
  unfolding lookup_or
  run_additions-total_from name rest k = additions_from (new_counter name) rest k
