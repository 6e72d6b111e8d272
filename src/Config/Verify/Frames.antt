-- ===== src/Config/Verify/Frames.antt =====
-- What the steps of VerifyConfig leave alone.
use mq_metric_samples.Prelude.{List, [], ◌∷◌, All, ◌≡◌, refl, ◌∙◌, inl, inr, ◌⊎◌}
use mq_metric_samples.Config.Record.{Config}
use mq_metric_samples.Config.Verify.Steps.{Checked, passed, failed, panicked, ◌>>=◌, Step, str_of}
use mq_metric_samples.Config.Verify.Whole.{run_steps}

pub >>=-eq-passed :
    (m : Checked) (f : Step) {c : Config}
    → (m >>= f) ≡ passed c
    → (b : Config) × (m ≡ passed b) × (f b ≡ passed c)
>>=-eq-passed (passed b) f h = (b, refl, h)
>>=-eq-passed (failed b e) f h = cc h
>>=-eq-passed panicked f h = cc h

abbrev pub Keeps {ℓ} : (Config → Config → Type ℓ) → Step → Type ℓ
Keeps R f = (c c' : Config) → f c ≡ passed c' → R c c'

-- A relation that every step keeps holds of the whole run.
pub run_steps-Keeps :
    (R : Config → Config → Type 0)
    → ((c : Config) → R c c)
    → ((a b c : Config) → R a b → R b c → R a c)
    → (fs : List Step) → All (Keeps R) fs
    → Keeps R (run_steps fs)
unfolding run_steps
run_steps-Keeps R self trans [] hs c c' h = let e : c ≡ c' = cc h in rw (← e) (self c)
run_steps-Keeps R self trans (f ∷ fs) hs c c' h =
    let (b, first, rest) = >>=-eq-passed (f c) (run_steps fs) h in
    trans c b c' (hs.0 c b first) (run_steps-Keeps R self trans fs hs.1 b c' rest)

-- `P` is established by one step and kept by those behind it.
abbrev pub Establishes : (Config → Type 0) → List Step → Type 0
Establishes P [] = ⊥
Establishes P (f ∷ fs) =
    (Keeps (λ _ c'. P c') f × All (Keeps (λ c c'. P c → P c')) fs) ⊎ Establishes P fs

pub run_steps-Establishes :
    (P : Config → Type 0) (fs : List Step)
    → Establishes P fs
    → (c c' : Config) → run_steps fs c ≡ passed c'
    → P c'
unfolding run_steps
run_steps-Establishes P [] e c c' h = absurd e
run_steps-Establishes P (f ∷ fs) (inl e) c c' h =
    let (b, first, rest) = >>=-eq-passed (f c) (run_steps fs) h in
    run_steps-Keeps (λ c c'. P c → P c') (λ c p. p) (λ a b c f g p. g (f p)) fs e.1 b c' rest
      (e.0 c b first)
run_steps-Establishes P (f ∷ fs) (inr e) c c' h =
    let (b, first, rest) = >>=-eq-passed (f c) (run_steps fs) h in
    run_steps-Establishes P fs e b c' rest

-- The variables that no step behind the status flags changes.
pub record Frame (c c' : Config) : Type 0 where
  pub bools : c'.vars.bool_var ≡ c.vars.bool_var
  pub statistics_q : str_of c' "cm.CC.StatisticsQ" ≡ str_of c "cm.CC.StatisticsQ"
  pub selectors : str_of c' "cm.QueueSubscriptionSelector" ≡ str_of c "cm.QueueSubscriptionSelector"
  pub moved_selectors :
      str_of c' "cfMoved.QueueSubscriptionSelector" ≡ str_of c "cfMoved.QueueSubscriptionSelector"
  pub moved_inactives :
      str_of c' "cfMoved.ShowInactiveChannels" ≡ str_of c "cfMoved.ShowInactiveChannels"

Frame-self : (c : Config) → Frame c c
Frame-self c = record {
  bools = refl;
  statistics_q = refl;
  selectors = refl;
  moved_selectors = refl;
  moved_inactives = refl;
}

Frame-trans : (a b c : Config) → Frame a b → Frame b c → Frame a c
Frame-trans a b c f g = record {
  bools = g.bools ∙ f.bools;
  statistics_q = g.statistics_q ∙ f.statistics_q;
  selectors = g.selectors ∙ f.selectors;
  moved_selectors = g.moved_selectors ∙ f.moved_selectors;
  moved_inactives = g.moved_inactives ∙ f.moved_inactives;
}

pub run_steps-Frame : (fs : List Step) → All (Keeps Frame) fs → Keeps Frame (run_steps fs)
run_steps-Frame = run_steps-Keeps Frame Frame-self Frame-trans
