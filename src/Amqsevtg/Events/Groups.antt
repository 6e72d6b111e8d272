-- ===== src/Amqsevtg/Events/Groups.antt =====
-- The groups of one kind in an event's data.
use mq_metric_samples.Prelude.{
  Bool, true, none, sym, append-nil, append_assoc, Bytes, bytes_eq, bytes_eq_iff, lookup, insert,
  lookup-insert, false, ◌&&◌, List, [], ◌∷◌, ◌++◌, some, >>=-eq-some, All, if◌then◌else◌, ◌≡◌, refl,
  ◌∙◌, ap, Bool-cases, inl, inr,
}
use mq_metric_samples.Prelude.Int.{ℤ}
use mq_metric_samples.Amqsevtg.Elements.{
  Constants, Elem, leaf, group, Fields, Scalar, elem_entry, print_elems,
}
use mq_metric_samples.Amqsevtg.Events.{
  Body, Member, scalar, single, several, is_repeated, records_of, group_name, add_group, add_elem,
  add_elems,
}
use mq_metric_samples.Amqsevtg.Values.{Raw}

module _ (mq : Constants) (raw : Raw) (n : Bytes) where
  -- The fields of the groups that go under the name as records, in their order.
  abbrev pub groups_of : List Elem → List Fields
  groups_of [] = []
  groups_of (leaf e ∷ es) = groups_of es
  groups_of (group p count ls ∷ es) =
      let rest = groups_of es in
      if is_repeated p && bytes_eq (group_name mq raw p) n
      then elim (print_elems mq raw count ls []) [ some fields ↦ fields ∷ rest | none ↦ rest ]
      else rest

  -- Nothing but such groups goes under the name.
  abbrev pub Leaves : Elem → Type 0
  Leaves (leaf e) = (kv : Bytes × Scalar) → elem_entry mq raw e ≡ some kv → bytes_eq kv.0 n ≡ false
  Leaves (group p count ls) = is_repeated p ≡ false → bytes_eq (group_name mq raw p) n ≡ false

  abbrev pub records_in : Body → List Fields
  records_in body = records_of (lookup n body)

  insert_elsewhere :
      (k : Bytes) (m : Member) (body : Body)
      → bytes_eq k n ≡ false
      → records_in (insert k m body) ≡ records_in body
  insert_elsewhere k m body h = ap records_of (lookup-insert k n m body ∙ rw h refl)

  abbrev one_if : Bool → Fields → List Fields
  one_if b fields = if b then fields ∷ [] else []

  add_group-records :
      (p : ℤ) (fields : Fields) (body : Body)
      → (is_repeated p ≡ false → bytes_eq (group_name mq raw p) n ≡ false)
      → records_in (add_group mq raw p fields body)
        ≡ records_in body ++ one_if (is_repeated p && bytes_eq (group_name mq raw p) n) fields
  unfolding add_group
  add_group-records p fields body h = elim (Bool-cases (is_repeated p)) [
    | inr once ↦ rw once (
        insert_elsewhere (group_name mq raw p) (single fields) body (h once)
        ∙ sym (append-nil (records_in body)))
    | inl again ↦ elim (Bool-cases (bytes_eq (group_name mq raw p) n)) [
      | inr off ↦
          rw (again, off)
            (insert_elsewhere (group_name mq raw p) _ body off ∙ sym (append-nil (records_in body)))
      | inl same ↦
          let name_is : group_name mq raw p ≡ n = (bytes_eq_iff (group_name mq raw p) n).0 same in
          let old = records_of (lookup (group_name mq raw p) body) in
          let v = several (old ++ fields ∷ []) in
          let stored : records_in (insert (group_name mq raw p) v body) ≡ old ++ fields ∷ [] =
            let put : lookup n (insert (group_name mq raw p) v body) ≡ some v =
              lookup-insert (group_name mq raw p) n v body ∙ rw same refl in
            ap records_of put in
          let same_old : old ≡ records_in body =
            ap (λ (k : Bytes). records_of (lookup k body)) name_is in
          rw (again, same) (stored ∙ ap (λ (rs : List Fields). rs ++ fields ∷ []) same_old)
    ]
  ]

  one_more :
      (b : Bool) (fields : Fields) (rest : List Fields)
      → one_if b fields ++ rest ≡ (if b then fields ∷ rest else rest)
  one_more true fields rest = refl
  one_more false fields rest = refl

  add_elem-records :
      (e : Elem) (es : List Elem) (body body' : Body)
      → add_elem mq raw e body ≡ some body'
      → Leaves e
      → records_in body' ++ groups_of es ≡ records_in body ++ groups_of (e ∷ es)
  unfolding add_elem
  add_elem-records (leaf e) es body body' h l =
      let (kv, entry, rest) = >>=-eq-some (elem_entry mq raw e) _ h in
      let is : insert kv.0 (scalar kv.1) body ≡ body' = cc rest in
      rw (← is) (
        ap (λ (rs : List Fields). rs ++ groups_of es)
          (insert_elsewhere kv.0 (scalar kv.1) body (l kv entry)))
  add_elem-records (group p count ls) es body body' h l =
      let (fields, printed, rest) = >>=-eq-some (print_elems mq raw count ls []) _ h in
      let is : add_group mq raw p fields body ≡ body' = cc rest in
      let b = is_repeated p && bytes_eq (group_name mq raw p) n in
      rw (← is, printed)
        (ap (λ (rs : List Fields). rs ++ groups_of es) (add_group-records p fields body l)
          ∙ append_assoc (records_in body) (one_if b fields) (groups_of es)
          ∙ ap (λ (rs : List Fields). records_in body ++ rs) (one_more b fields (groups_of es)))

  -- Of the groups that come more than once under a name, an event's data keeps the fields of every one,
  -- in their order, behind those it has, as long as nothing else goes under the name.
  pub add_elems-records :
      (es : List Elem) (body body' : Body)
      → add_elems mq raw es body ≡ some body'
      → All Leaves es
      → records_of (lookup n body') ≡ records_of (lookup n body) ++ groups_of es
  unfolding add_elems
  add_elems-records [] body body' h l =
      let is : body ≡ body' = cc h in rw (← is) (sym (append-nil (records_in body)))
  add_elems-records (e ∷ es) body body' h l =
      let (b₁, first, rest) = >>=-eq-some (add_elem mq raw e body) _ h in
      add_elems-records es b₁ body' rest l.1 ∙ add_elem-records e es body b₁ first l.0
