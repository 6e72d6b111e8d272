-- ===== src/Amqsevtg/Elements.antt =====
-- amqsevtg/format.go: printElem. What the MQ package knows of its constants is a parameter, and the
-- elements are what it reads from a message. `none` is a panic on an element without a value.
use mq_metric_samples.Prelude.{
  ℕ, zero, suc, ◌-◌, ◌^◌, Bytes, codes, is_empty, bytes_eq, to_upper, to_upper_byte, length, drop,
  get_elem?, insert, Bool, not, ◌&&◌, ◌||◌, List, [], ◌∷◌, ◌++◌, Option, none, some, ◌>>=◌, ltb,
  ◌==◌, if◌then◌else◌, map,
}
use mq_metric_samples.Prelude.Int.{ℤ, pos, eqb_ℤ, bit, int32}
use mq_metric_samples.Prelude.Decimal.{itoa, hex8}
use mq_metric_samples.Config.Parms.Convert.{parse_int}
use mq_metric_samples.Amqsevtg.Names.{pretty_name}
use mq_metric_samples.Amqsevtg.Values.{Raw, pretty_val}

-- MQItoString, PCFAttrToPrefix and PCFValueToString.
pub record Constants : Type 0 where
  pub name : Bytes → ℤ → Bytes
  pub attr_prefix : ℤ → Bytes
  pub value_name : ℤ → ℤ → Bytes

pub record Filter : Type 0 where
  pub filter_parameter : ℤ
  pub operator : ℤ

-- An element that is no group, by its type.
pub data Leaf : Type 0 where
  integer integer64 integer_list integer64_list : ℤ → List ℤ → Leaf
  string string_list byte_string : ℤ → List Bytes → Leaf
  integer_filter : ℤ → Filter → ℤ → Leaf
  string_filter byte_string_filter : ℤ → Filter → Bytes → Leaf
  -- any other type, with its number
  other : ℤ → ℤ → Leaf

pub data Elem : Type 0 where
  leaf : Leaf → Elem
  -- a group, with its count and the elements that were read
  group : ℤ → ℕ → List Leaf → Elem

-- A JSON value of an element.
pub data Item : Type 0 where
  number : ℤ → Item
  text : Bytes → Item

pub data Scalar : Type 0 where
  item : Item → Scalar
  items : List Item → Scalar
  named : Bytes → ℤ → Scalar
  options : ℤ → Bytes → List Bytes → Scalar

abbrev pub Fields : Type 0
Fields = List (Bytes × Scalar)

-- `strings.HasSuffix`.
unfoldable pub has_suffix : Bytes → Bytes → Bool
unfolding bytes_eq
has_suffix s p = not (ltb (length s) (length p)) && bytes_eq (drop (length s - length p) s) p

module _ (mq : Constants) (raw : Raw) where
  -- The first of the sets that names the constant.
  unfoldable pub first_name : List Bytes → ℤ → Bytes
  first_name [] p = []
  first_name (s ∷ ss) p =
      let rest = first_name ss p in if is_empty (mq.name s p) then rest else mq.name s p

  abbrev pub attr_sets : List Bytes
  attr_sets = codes "MQIA" ∷ codes "MQCA" ∷ codes "MQBACF" ∷ []

  unfoldable pub unformatted : ℤ → Bytes
  unfolding first_name
  unformatted p = first_name (codes "MQIA" ∷ codes "MQCA" ∷ codes "MQBACF" ∷ codes "MQGA" ∷ []) p

  unfoldable pub key_of : ℤ → Bytes
  unfolding unformatted itoa pretty_name
  key_of p = if is_empty (unformatted p) then itoa p else pretty_name raw.raw_string (unformatted p)

  -- The loop over the bits of an options value: n more bits from i on.
  unfoldable pub bit_names : Bytes → ℤ → ℕ → ℕ → List Bytes
  unfolding bit pretty_val
  bit_names set v zero i = []
  bit_names set v (suc n) i =
      let rest = bit_names set v n (suc i) in
      if bit i v then pretty_val raw (mq.name set (pos (2 ^ i))) v ∷ rest else rest

  unfoldable pub option_names : ℤ → ℤ → List Bytes
  unfolding bit_names
  option_names p v =
      if eqb_ℤ v (pos 0) then codes "None" ∷ [] else bit_names (mq.attr_prefix p) v 32 0

  -- A name that reads as a number is shown as the number.
  unfoldable pub number_or : Bytes → ℤ → Item
  unfolding parse_int pretty_val
  number_or s v = if (parse_int s).1 then number v else text (pretty_val raw s v)

  unfoldable pub integer_value : ℤ → ℤ → Scalar
  unfolding unformatted has_suffix option_names number_or hex8 int32
  integer_value p v =
      if has_suffix (unformatted p) (codes "_OPTIONS")
      then options v (codes "0x" ++ hex8 v) (option_names p v)
      else if eqb_ℤ p (pos 1254) || eqb_ℤ p (pos 1242)
      then named (pretty_val raw (mq.value_name p v) v) (int32 v)
      else item (number_or (mq.value_name p v) v)

  -- The name of an attribute in a list of attributes.
  unfoldable pub attr_name : ℕ → ℤ → Bytes
  unfolding first_name
  attr_name count v =
      if count == 1 && eqb_ℤ v (pos 1009)
      then codes "All"
      else if is_empty (first_name attr_sets v)
      then itoa v
      else pretty_name raw.raw_string (first_name attr_sets v)

  unfoldable pub list_item : ℤ → ℕ → ℤ → Item
  unfolding unformatted has_suffix attr_name number_or
  list_item p count v =
      let s =
        if has_suffix (unformatted p) (codes "_ATTRS")
        then attr_name count v
        else pretty_val raw (mq.name (mq.attr_prefix p) v) v in
      if is_empty s then number v else number_or s v

  filter_text : Bytes → Filter → Bytes → Bytes
  filter_text set f value =
      codes "WHERE "
      ++ pretty_name raw.raw_string (mq.name set f.filter_parameter)
      ++ codes " "
      ++ pretty_name raw.raw_string (mq.name (codes "MQCFOP") f.operator)
      ++ codes " "
      ++ value

  quoted : Bytes → Bytes
  quoted s = codes "'" ++ s ++ codes "'"

  abbrev pub plain : Bytes → Bytes × Scalar
  plain s = (codes "filter", item (text s))

  -- The key and the value of an element.
  unfoldable pub elem_entry : Leaf → Option (Bytes × Scalar)
  unfolding key_of integer_value list_item filter_text quoted to_upper_byte
  elem_entry (integer p vs) = get_elem? vs 0 >>= λ v. some (key_of p, integer_value p v)
  elem_entry (integer64 p vs) = get_elem? vs 0 >>= λ v. some (key_of p, item (number v))
  elem_entry (integer_list p vs) = some (key_of p, items (map (list_item p (length vs)) vs))
  elem_entry (integer64_list p vs) = some (key_of p, items (map number vs))
  elem_entry (string p ss) = get_elem? ss 0 >>= λ s. some (key_of p, item (text s))
  elem_entry (string_list p ss) = some (key_of p, items (map text ss))
  elem_entry (byte_string p ss) = get_elem? ss 0 >>= λ s. some (key_of p, item (text (to_upper s)))
  elem_entry (integer_filter p f v) = some (plain (filter_text (codes "MQIA") f (itoa v)))
  elem_entry (string_filter p f s) = some (plain (filter_text (codes "MQCA") f (quoted s)))
  elem_entry (byte_string_filter p f s) = some (plain (filter_text (codes "MQBACF") f (quoted s)))
  elem_entry (other p type) =
      some (key_of p, item (text (codes "Unformatted type: " ++ mq.name (codes "MQCFT") type)))

  -- `printElem` into the map of a group.
  unfoldable pub print_elem : Leaf → Fields → Option Fields
  unfolding elem_entry insert
  print_elem e body = elem_entry e >>= λ kv. some (insert kv.0 kv.1 body)

  -- The loop over a group's elements.
  unfoldable pub print_elems : ℕ → List Leaf → Fields → Option Fields
  unfolding print_elem
  print_elems zero es body = some body
  print_elems (suc n) [] body = none
  print_elems (suc n) (e ∷ es) body = print_elem e body >>= λ body'. print_elems n es body'
