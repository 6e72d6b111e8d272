-- ===== src/Config/Start/Kept.antt =====
-- What the common blocks of initConfig behind the YAML file leave alone.
use mq_metric_samples.Prelude.{
  Bytes, Bool, true, false, Option, none, some, if◌then◌else◌, ◌≡◌, refl, ◌∙◌,
}
use mq_metric_samples.Config.Parms.Vars.{Loc, str_loc, load, same_loc}
use mq_metric_samples.Config.Record.{Config}
use mq_metric_samples.Config.Start.{
  Surroundings, Started, ready, rejected, ended, crashed, checked, with_password, verified,
  get_password,
}
use mq_metric_samples.Config.Verify.Steps.{Checked, passed, failed, with_str}
use mq_metric_samples.Config.Verify.Untouched.{Untouched, verify_config-kept}
use mq_metric_samples.Config.Verify.Whole.{verify_config}
use mq_metric_samples.Config.Yaml.Precedence.{set_str-load}

-- A variable that neither VerifyConfig nor the reading of a password writes.
abbrev pub IsOwn : Loc → Type 0
IsOwn l = Untouched l × (same_loc (str_loc "cm.CC.Password") l ≡ false)

checked-ready : (m : Checked) {c' : Config} → checked m ≡ ready c' → m ≡ passed c'
unfolding checked
checked-ready (passed c) h = cc h
checked-ready (failed c e) h = cc h
checked-ready Checked.panicked h = cc h

module _ {Y : Type 0} (w : Surroundings Y) where
  pub verified-passed :
      (c : Config) {c' : Config} → verified w c ≡ ready c' → verify_config w.externals c ≡ passed c'
  unfolding verified
  verified-passed c h = checked-ready (verify_config w.externals c) h

  -- At most the password differs.
  data Supplied (c : Config) : Config → Type 0 where
    same : Supplied c c
    supplied : (p : Bytes) → Supplied c (with_str "cm.CC.Password" p c)

  data Supplies (c : Config) : Started → Type 0 where
    returns : {c' : Config} → Supplied c c' → Supplies c (ready c')
    rejects : Supplies c rejected

  Supplies-if :
      (c : Config) (b : Bool) (m m' : Started)
      → Supplies c m
      → Supplies c m'
      → Supplies c (if b then m else m')
  Supplies-if c true m m' h h' = h
  Supplies-if c false m m' h h' = h'

  with_password-Supplies : (c : Config) (o : Option Bytes) → Supplies c (with_password c o)
  unfolding with_password
  with_password-Supplies c none = rejects
  with_password-Supplies c (some p) = returns (supplied p)

  get_password-Supplies : (c : Config) → Supplies c (get_password w c)
  unfolding get_password
  get_password-Supplies c = search (returns, same, supplied, Supplies-if, with_password-Supplies)

  Supplies-Supplied : (c c' : Config) (m : Started) → Supplies c m → m ≡ ready c' → Supplied c c'
  Supplies-Supplied c c' (ready d) (returns h) e = let is : d ≡ c' = cc e in rw (← is) h
  Supplies-Supplied c c' rejected rejects e = cc e
  Supplies-Supplied c c' (ended n) h e = elim h [ ]
  Supplies-Supplied c c' crashed h e = elim h [ ]

  Supplied-kept :
      (l : Loc) {c c' : Config} → IsOwn l → Supplied c c' → load l c'.vars ≡ load l c.vars
  Supplied-kept l own same = refl
  Supplied-kept l {c} own (supplied p) = set_str-load "cm.CC.Password" p l c.vars ∙ rw own.1

  pub get_password-kept :
      (l : Loc) (c c' : Config)
      → IsOwn l
      → get_password w c ≡ ready c'
      → load l c'.vars ≡ load l c.vars
  get_password-kept l c c' own h =
      Supplied-kept l own (Supplies-Supplied c c' (get_password w c) (get_password-Supplies c) h)

  pub verified-kept :
      (l : Loc) (c c' : Config) → IsOwn l → verified w c ≡ ready c' → load l c'.vars ≡ load l c.vars
  verified-kept l c c' own h = verify_config-kept w.externals l c c' own.0 (verified-passed c h)
