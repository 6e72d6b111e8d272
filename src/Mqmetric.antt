-- ===== src/Mqmetric.antt =====
-- What the collectors read of the package mqmetric, which is another project's: the attributes of the
-- objects with their values, the published metrics, and the functions that they call. A collection
-- sees one such record, whose contents are arguments of the models.
use mq_metric_samples.Prelude.{
  Bytes, codes, insert, if◌then◌else◌, Bool, List, [], ◌∷◌, ◌++◌, Option, none, some, lookup, ◌>>=◌,
}
use mq_metric_samples.Prelude.Int.{ℤ, pos, eqb_ℤ}

-- `StatusValue`
pub record Value : Type 0 where
  pub is_int64 : Bool
  pub value_int64 : ℤ
  pub value_string : Bytes

-- `StatusAttribute`; the values are in the order in which a loop over the Go map meets them.
pub record Attribute : Type 0 where
  pub metric_name : Bytes
  pub description : Bytes
  pub delta : Bool
  pub pseudo : Bool
  pub values : List (Bytes × Value)

-- `StatusSet`: the attributes by their keys.
abbrev pub StatusSet : Type 0
StatusSet = List (Bytes × Attribute)

-- `MonElement`, with the names of its class and type and the topic of its type, and its values for the objects.
pub record Element : Type 0 where
  pub class_name : Bytes
  pub type_name : Bytes
  pub object_topic : Bytes
  pub element_name : Bytes
  pub element_description : Bytes
  pub element_description_nls : Bytes
  pub is_delta : Bool
  pub element_values : List (Bytes × ℤ)

-- The object types, as `OT_…` and `MQOT_…`.
pub data ObjectType : Type 0 where
  ot_q ot_channel ot_topic ot_sub ot_cluster ot_q_mgr ot_bp ot_ps : ObjectType
  ot_channel_amqp ot_channel_mqtt : ObjectType

-- F is the type of the numbers that are reported, float64.
pub record Mq (F : Type 0) : Type 0 where
  pub is_zos : Bool
  pub platform : Bytes
  pub object_status : ObjectType → StatusSet
  pub object_statistics : ObjectType → StatusSet
  pub published : List Element
  pub publication_count : F
  pub normalise_element : Element → Bytes → ℤ → F
  pub normalise : ObjectType → Attribute → ℤ → F
  pub object_description : Bytes → ObjectType → Bytes
  pub object_custom : Bytes → ObjectType → Bytes
  pub queue_cluster : Bytes → Bytes
  pub q_mgr_identifier : Bytes → Bytes
  pub q_mgr_host_name : Bytes → Bytes
  pub channel_type_name : ℤ → Bytes
  pub sub_type_name : ℤ → Bytes

-- `Attributes[a].Values`; `none` is the panic on an attribute that is not in the set.
abbrev pub values_of : Bytes → StatusSet → Option (List (Bytes × Value))
values_of a set = elim (lookup a set) [ some attr ↦ some attr.values | none ↦ none ]

-- `Attributes[a].Values[key]` where the code goes on to a field of the value, which panics if there
-- is none.
abbrev pub required : Bytes → Bytes → StatusSet → Option Value
required a key set = values_of a set >>= lookup key

-- The text that an attribute gives an object.
abbrev pub text_of : StatusSet → Bytes → Bytes → Option Bytes
text_of set a key = required a key set >>= λ v. some v.value_string

-- The same where the value may be missing.
abbrev pub text_or : Bytes → StatusSet → Bytes → Bytes → Option Bytes
text_or other set a key =
    values_of a set >>= λ vs. some (elim (lookup key vs) [ some v ↦ v.value_string | none ↦ other ])

-- The collectors' text for the usage of a queue, empty where it is not known.
unfoldable pub usage_text : Option Value → Bytes
usage_text none = []
usage_text (some v) = if eqb_ℤ v.value_int64 (pos 1) then codes "XMITQ" else codes "NORMAL"

-- Writes to a map of tags, one after the other.
abbrev pub put_all : List (Bytes × Bytes) → List (Bytes × Bytes) → List (Bytes × Bytes)
put_all [] tags = tags
put_all ((k, v) ∷ kvs) tags = put_all kvs (insert k v tags)

-- A loop whose body may panic and otherwise reports something.
abbrev pub each {ℓ κ} : {A : Type ℓ} {B : Type κ} → (A → Option (List B)) → List A → Option (List B)
each f [] = some []
each f (x ∷ xs) = f x >>= λ r. each f xs >>= λ rs. some (r ++ rs)
