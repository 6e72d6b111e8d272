-- ===== src/Json/Fixup.antt =====
-- cmd/mq_json/exporter.go: fixup, with its cache `fixupString` passed along. Metric names are ASCII.
use mq_metric_samples.Prelude.{
  Bytes, codes, bytes_eq, bytes_eq_iff, bytes_eq_self, to_upper_byte, to_lower_byte, has_prefix,
  drop, lookup, insert, lookup-insert, Bool, true, false, ◌&&◌, List, [], ◌∷◌, ◌++◌, Option, none,
  some, Free, ◌==◌, if◌then◌else◌, inl, inr, Bool-cases, Option-cases, ◌≡◌, refl, arith,
}

-- The loop: an underscore is dropped and makes the next letter upper case.
unfoldable pub camel_from : Bool → Bytes → Bytes
camel_from next_upper [] = []
camel_from next_upper (c ∷ cs) =
    if c == b'_'
    then camel_from true cs
    else (if next_upper then to_upper_byte c else to_lower_byte c) ∷ camel_from false cs

abbrev pub camel : Bytes → Bytes
camel = camel_from false

-- "queue_queue_depth" looks silly: the second "queue" goes.
unfoldable pub strip : Bytes → Bytes → Bytes
unfolding has_prefix bytes_eq
strip s1 object_type =
    if bytes_eq object_type (codes "queue") && has_prefix s1 (codes "queue_") then drop 6 s1 else s1

abbrev pub Cache : Type 0
Cache = List (Bytes × Bytes)

fixup_miss : Bytes → Cache → Bytes × Cache
fixup_miss s1 cache = (camel s1, insert s1 (camel s1) cache)

fixup_in : Option Bytes → Bytes → Bytes → Cache → Bytes × Cache
fixup_in (some s2) s1 object_type cache = (s2, cache)
fixup_in none s1 object_type cache = fixup_miss (strip s1 object_type) cache

unfoldable pub fixup : Bytes → Bytes → Cache → Bytes × Cache
unfolding camel_from strip fixup_miss fixup_in lookup insert
fixup s1 object_type cache = fixup_in (lookup s1 cache) s1 object_type cache

camel_from-Free : (up : Bool) (s : Bytes) → Free b'_' (camel_from up s)
unfolding camel_from to_upper_byte to_lower_byte
camel_from-Free up [] = tt
camel_from-Free up (c ∷ cs) = elim (Bool-cases (c == b'_')) [
  | inl dash ↦ rw dash (camel_from-Free true cs)
  | inr letter ↦ rw letter (ground arith, camel_from-Free false cs)
]

-- Every cached name is the converted form of its key.
abbrev pub IsCamel : Cache → Type 0
IsCamel cache = (k v : Bytes) → lookup k cache ≡ some v → v ≡ camel k

-- The name that is converted: what is cached is found under the full name.
abbrev base_in : Option Bytes → Bytes → Bytes → Bytes
base_in none s1 object_type = strip s1 object_type
base_in (some v) s1 object_type = s1

abbrev pub base_name : Bytes → Bytes → Cache → Bytes
base_name s1 object_type cache = base_in (lookup s1 cache) s1 object_type

IsCamel-insert : (k : Bytes) (cache : Cache) → IsCamel cache → IsCamel (insert k (camel k) cache)
IsCamel-insert k cache h j v found =
    ground (arith, lookup-insert k j (camel k) cache, bytes_eq_iff k j, h j v)

-- The result is the camel-case form of the name, without its "queue_" in a queue's metric that is
-- not cached under its full name; it holds no underscore; and the cache stays one of such forms.
pub fixup-camel :
    (s1 object_type : Bytes) (cache : Cache)
    → IsCamel cache
    → ((fixup s1 object_type cache).0 ≡ camel (base_name s1 object_type cache))
      × Free b'_' (fixup s1 object_type cache).0
      × IsCamel (fixup s1 object_type cache).1
unfolding fixup_in fixup_miss fixup
fixup-camel s1 object_type cache h = elim (Option-cases (lookup s1 cache)) [
  | inl miss ↦
      let s = strip s1 object_type in
      rw (miss, fixup) (refl, camel_from-Free false s, IsCamel-insert s cache h)
  | inr (v, hit) ↦ let e = h s1 v hit in rw (hit, fixup) (e, rw e (camel_from-Free false s1), h)
]

-- The answer for a queue's metric depends on who asked first: once another object type has cached
-- the full name, the queue's metric keeps its "queue" too.
fixup_order :
    (x other : Bytes)
    → bytes_eq other (codes "queue") ≡ false
    → ((fixup (codes "queue_" ++ x) (codes "queue") []).0 ≡ camel x)
      × ((fixup (codes "queue_" ++ x) (codes "queue") (fixup (codes "queue_" ++ x) other []).1).0
          ≡ camel (codes "queue_" ++ x))
unfolding fixup
fixup_order x other h = (refl, rw (h, strip) (rw bytes_eq_self))
