-- ===== src/Json/Content.antt =====
-- The canonical form decides sameness of content.
use triage_engine.Prelude.{
  Text, text_leb, text_leb_total, text_eq_iff, ◌≡◌, ◌≢◌, sym, ◌↔◌, subst, true, false, inl, inr,
  arith, Bool-cases,
}
use triage_engine.Json.{
  Json, null, bool, num, str, arr, obj, Items, nil, cons, Fields, end, field, insert_field,
  proto_key, assign, canonicalize, canonicalize_items, canonicalize_fields,
}
use triage_engine.Json.Laws.{
  Same, alike, in_arr, in_obj, SameItems, none_left, each, SameFields, no_field, keep, swap,
  then_same, canonicalize-Same,
}

-- No object in the value has the key `__proto__`.
unfoldable mutual
  pub IsPlain : Json → Type 0
  IsPlain null = Unit {0}
  IsPlain (bool b) = Unit {0}
  IsPlain (num d) = Unit {0}
  IsPlain (str s) = Unit {0}
  IsPlain (arr xs) = ArePlain xs
  IsPlain (obj fs) = HavePlain fs

  pub ArePlain : Items → Type 0
  ArePlain nil = Unit {0}
  ArePlain (cons x xs) = IsPlain x × ArePlain xs

  pub HavePlain : Fields → Type 0
  HavePlain end = Unit {0}
  HavePlain (field k v fs) = (k ≢ proto_key) × IsPlain v × HavePlain fs

mutual
  Same-sym : {a b : Json} → Same a b → Same b a
  Same-sym alike = alike
  Same-sym (in_arr s) = in_arr (items-sym s)
  Same-sym (in_obj s) = in_obj (fields-sym s)

  items-sym : {xs ys : Items} → SameItems xs ys → SameItems ys xs
  items-sym none_left = none_left
  items-sym (each s t) = each (Same-sym s) (items-sym t)

  fields-sym : {fs gs : Fields} → SameFields fs gs → SameFields gs fs
  fields-sym no_field = no_field
  fields-sym (keep s t) = keep (Same-sym s) (fields-sym t)
  fields-sym (swap ne) = swap (λ e. ne (sym e))
  fields-sym (then_same s t) = then_same (fields-sym t) (fields-sym s)

mutual
  Same-trans : {a b c : Json} → Same a b → Same b c → Same a c
  Same-trans alike t = t
  Same-trans (in_arr s) alike = in_arr s
  Same-trans (in_arr s) (in_arr t) = in_arr (items_trans s t)
  Same-trans (in_obj s) alike = in_obj s
  Same-trans (in_obj s) (in_obj t) = in_obj (then_same s t)

  items_trans : {xs ys zs : Items} → SameItems xs ys → SameItems ys zs → SameItems xs zs
  items_trans none_left t = t
  items_trans (each s ss) (each t ts) = each (Same-trans s t) (items_trans ss ts)

fields_refl : (fs : Fields) → SameFields fs fs
fields_refl end = no_field
fields_refl (field k v fs) = keep alike (fields_refl fs)

leb_ne : (k j : Text) → text_leb k j ≡ false → k ≢ j
leb_ne k j later e =
    let above : text_leb k k ≡ true =
      subst (λ x. text_leb x k ≡ true) (sym e) (text_leb_total k j later) in
    let below : text_leb k k ≡ false = subst (λ x. text_leb k x ≡ false) (sym e) later in
    ground (arith, above, below)

-- Inserting a field passes only fields with another key.
insert_field-Same :
    (k : Text) (v : Json) (fs : Fields) → SameFields (field k v fs) (insert_field k v fs)
unfolding insert_field
insert_field-Same k v end = fields_refl (field k v end)
insert_field-Same k v (field j w fs) = elim (Bool-cases (text_leb k j)) [
  | inl first ↦ rw first (fields_refl (field k v (field j w fs)))
  | inr later ↦
      rw later (then_same (swap (leb_ne k j later)) (keep alike (insert_field-Same k v fs)))
]

assign_plain :
    (k : Text) (v : Json) (fs : Fields) → k ≢ proto_key → insert_field k v fs ≡ assign k v fs
unfolding assign
assign_plain k v fs ne = ground (arith, ne, text_eq_iff k proto_key)

mutual
  unfolding canonicalize IsPlain

  canonical-Same : (a : Json) → IsPlain a → Same a (canonicalize a)
  canonical-Same null p = alike
  canonical-Same (bool b) p = alike
  canonical-Same (num d) p = alike
  canonical-Same (str s) p = alike
  canonical-Same (arr xs) p = in_arr (canonical-SameItems xs p)
  canonical-Same (obj fs) p = in_obj (canonical-SameFields fs p)

  canonical-SameItems : (xs : Items) → ArePlain xs → SameItems xs (canonicalize_items xs)
  canonical-SameItems nil p = none_left
  canonical-SameItems (cons x xs) p = each (canonical-Same x p.0) (canonical-SameItems xs p.1)

  canonical-SameFields : (fs : Fields) → HavePlain fs → SameFields fs (canonicalize_fields fs)
  canonical-SameFields end p = no_field
  canonical-SameFields (field k v fs) p =
      then_same (keep (canonical-Same v p.1) (canonical-SameFields fs p.2)) (
        subst (λ gs. SameFields (field k (canonicalize v) (canonicalize_fields fs)) gs)
          (assign_plain k (canonicalize v) (canonicalize_fields fs) p.0)
          (insert_field-Same k (canonicalize v) (canonicalize_fields fs)))

-- Two values with no `__proto__` key have one canonical form exactly when they have the same content: at
-- any depth, the fields of an object in another order.
pub canonicalize_iff :
    (a b : Json) → IsPlain a → IsPlain b → (canonicalize a ≡ canonicalize b) ↔ Same a b
canonicalize_iff a b p q = (
  λ e. Same-trans (subst (Same a) e (canonical-Same a p)) (Same-sym (canonical-Same b q)),
  λ s. canonicalize-Same s,
)
