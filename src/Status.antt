-- ===== src/Status.antt =====
-- pkg/errors/errors.go: HandleStatus, and a run of collections that calls it after each one.
use mq_metric_samples.Prelude.{
  ℕ, suc, zero, ◌+◌, ◌≤◌, Bool, true, false, List, [], ◌∷◌, Option, none, some, ◌⊎◌, inl, inr, ◌↔◌,
  ◌≡◌, refl, arith, ltb, if◌then◌else◌,
}

abbrev pub max_status_collection_errors : ℕ
max_status_collection_errors = 3

-- The new count of consecutive failures; `none` is the end of the process by log.Fatalf.
unfoldable pub handle_status : Bool → ℕ → Option ℕ
handle_status true count =
    if ltb max_status_collection_errors (count + 1) then none else some (count + 1)
handle_status false count = some 0

after : Option ℕ → (ℕ → Option ℕ) → Option ℕ
after none f = none
after (some n) f = f n

-- The collections' results in turn: `true` is a failure.
unfoldable pub run_collections : List Bool → ℕ → Option ℕ
unfolding handle_status after
run_collections [] count = some count
run_collections (r ∷ rs) count = after (handle_status r count) (run_collections rs)

abbrev pub StartsFailing : ℕ → List Bool → Type 0
StartsFailing zero rs = Unit
StartsFailing (suc k) [] = ⊥
StartsFailing (suc k) (true ∷ rs) = StartsFailing k rs
StartsFailing (suc k) (false ∷ rs) = ⊥

-- Somewhere k results in a row are failures.
pub data FailsInARow (k : ℕ) : List Bool → Type 0 where
  now : {rs : List Bool} → StartsFailing k rs → FailsInARow k rs
  later : {r : Bool} {rs : List Bool} → FailsInARow k rs → FailsInARow k (r ∷ rs)

pub now_or_later :
    {k : ℕ} {r : Bool} {rs : List Bool}
    → FailsInARow k (r ∷ rs)
    → StartsFailing k (r ∷ rs) ⊎ FailsInARow k rs
now_or_later (now s) = inl s
now_or_later (later f) = inr f

pub never_in_none : {k : ℕ} → FailsInARow (suc k) [] → ⊥
never_in_none (now s) = s

fatal→fails :
    (rs : List Bool) (count left : ℕ)
    → count + left ≡ max_status_collection_errors
    → run_collections rs count ≡ none
    → StartsFailing (suc left) rs ⊎ FailsInARow 4 rs
unfolding run_collections
fatal→fails [] count left e h = cc h
fatal→fails (false ∷ rs) count left e h = elim (fatal→fails rs 0 3 refl h) [
  | inl s ↦ inr (later (now s))
  | inr f ↦ inr (later f)
]
fatal→fails (true ∷ rs) count zero e h = inl tt
fatal→fails (true ∷ rs) count (suc left) e h =
    elim (fatal→fails rs (count + 1) left (omega arith) (ground arith)) [
      | inl s ↦ inl s
      | inr f ↦ inr (later f)
    ]

starts→fatal :
    (rs : List Bool) (count left : ℕ)
    → count + left ≡ max_status_collection_errors
    → StartsFailing (suc left) rs
    → run_collections rs count ≡ none
unfolding run_collections
starts→fatal [] count left e s = absurd s
starts→fatal (false ∷ rs) count left e s = absurd s
starts→fatal (true ∷ rs) count zero e s = ground arith
starts→fatal (true ∷ rs) count (suc left) e s =
    ground (arith, starts→fatal rs (count + 1) left (omega arith) s)

pub StartsFailing-le : (j k : ℕ) (rs : List Bool) → j ≤ k → StartsFailing k rs → StartsFailing j rs
StartsFailing-le zero k rs h s = tt
StartsFailing-le (suc j) zero rs h s = absurd (omega arith)
StartsFailing-le (suc j) (suc k) [] h s = absurd s
StartsFailing-le (suc j) (suc k) (true ∷ rs) h s = StartsFailing-le j k rs (omega arith) s
StartsFailing-le (suc j) (suc k) (false ∷ rs) h s = absurd s

-- Failures before the run only end the process sooner.
fails→fatal :
    {rs : List Bool} (count left : ℕ)
    → count + left ≡ max_status_collection_errors
    → FailsInARow 4 rs
    → run_collections rs count ≡ none
unfolding run_collections
fails→fatal count left e (now {rs} s) =
    starts→fatal rs count left e (StartsFailing-le (suc left) 4 rs (omega arith) s)
fails→fatal count left e (later {r = false} f) = fails→fatal 0 3 refl f
fails→fatal count zero e (later {r = true} f) = ground arith
fails→fatal count (suc left) e (later {r = true} f) =
    ground (arith, fails→fatal (count + 1) left (omega arith) f)

-- The process ends exactly when four collections in a row fail.
pub run_collections_fatal_iff : (rs : List Bool) → (run_collections rs 0 ≡ none) ↔ FailsInARow 4 rs
run_collections_fatal_iff rs =
    ((λ h. elim (fatal→fails rs 0 3 refl h) [ inl s ↦ now s | inr f ↦ f ]), fails→fatal 0 3 refl)
