-- ===== src/Config/Parms/Parse/Marks.antt =====
-- The second loop of ParseParms: an entry stays in its place, marked if the command line set it.
use mq_metric_samples.Prelude.{Bytes, ◌||◌, List, ◌∷◌, ◌≡◌, arith, In, here, there}
use mq_metric_samples.Config.Parms.Entry.{ConfigParm, Entry}
use mq_metric_samples.Config.Parms.Flags.{Setting}
use mq_metric_samples.Config.Parms.Parse.{cli_set, mark_cli}

abbrev pub marked : List Setting → ConfigParm → ConfigParm
marked settings p = record p { user_set = cli_set p.cli_name settings || p.user_set }

mark_lem :
    (settings : List Setting) (key : Bytes) (p : ConfigParm) (es : List Entry)
    → mark_cli settings ((key, p) ∷ es) ≡ (key, marked settings p) ∷ mark_cli settings es
unfolding mark_cli
mark_lem settings key p es = ground arith

pub In-mark_cli :
    (settings : List Setting) {key : Bytes} {p : ConfigParm} {es : List Entry}
    → In (key, p) es
    → In (key, marked settings p) (mark_cli settings es)
In-mark_cli settings (here {xs}) = rw mark_lem here
In-mark_cli settings (there {y} {xs} i) =
    rw (mark_lem settings y.0 y.1 xs) (there (In-mark_cli settings i))
