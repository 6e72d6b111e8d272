-- ===== src/Prometheus/Collect/Orders.antt =====
-- cmd/mq_prometheus/exporter.go, Collect: its orders list types that have vectors.
use mq_metric_samples.Prelude.{
  Bool, true, false, [], ◌++◌, Option, some, ◌>>=◌, All, In, here, there, if◌then◌else◌, ◌≡◌, refl,
  ◌⨾◌,
}
use mq_metric_samples.Prometheus.Allocate.{shared_types, platform_types, statistics_types}
use mq_metric_samples.Prometheus.Collect.Loops.{filled_types, cleared_types, if_all}

platform_listed :
    (b : Bool) → All (λ ot. In ot (shared_types ++ platform_types b)) (platform_types b)
platform_listed true =
    (there (there (there (there (there (there here)))))
      ⨾ there (there (there (there (there (there (there here))))))
      ⨾ tt)
platform_listed false =
    (there (there (there (there (there (there here)))))
      ⨾ there (there (there (there (there (there (there here))))))
      ⨾ tt)

-- The orders in which Collect clears and fills list types that Describe lists.
pub filled_listed :
    (b : Bool)
    → All (λ ot. In ot (shared_types ++ platform_types b)) (filled_types ++ platform_types b)
filled_listed b =
    (here
      ⨾ there here
      ⨾ there (there here)
      ⨾ there (there (there here))
      ⨾ there (there (there (there (there here))))
      ⨾ there (there (there (there here)))
      ⨾ platform_listed b)

pub cleared_listed :
    (b : Bool)
    → All (λ ot. In ot (shared_types ++ platform_types b)) (cleared_types ++ platform_types b)
cleared_listed b =
    (here
      ⨾ there here
      ⨾ there (there (there (there (there here))))
      ⨾ there (there here)
      ⨾ there (there (there here))
      ⨾ there (there (there (there here)))
      ⨾ platform_listed b)

pub bind-some :
    {A B : Type 0} {o : Option A} {a : A} (f : A → Option B) {r : Option B}
    → o ≡ some a
    → f a ≡ r
    → (o >>= f) ≡ r
bind-some f e h = rw e h

pub listed_if : (b : Bool) → All (λ ot. In ot statistics_types) (if b then statistics_types else [])
listed_if true = (here ⨾ there here ⨾ tt)
listed_if false = tt

pub if_all-runs :
    {A : Type 0} (P : A → Type 0) (b : Bool) (f : A → Option A) (a : A)
    → P a
    → ((a' : A) × (f a ≡ some a') × P a')
    → (a' : A) × (if_all b f a ≡ some a') × P a'
if_all-runs P true f a p r = r
if_all-runs P false f a p r = (a, refl, p)
