-- ===== src/Json/Laws.antt =====
-- What the canonical form forgets: the order of an object's keys, at any depth.
use triage_engine.Prelude.{Text, text_eq_iff, ◌≡◌, refl, ap, ap₂, ◌∙◌, ◌≢◌, arith}
use triage_engine.Json.{
  Json, arr, obj, Items, nil, cons, Fields, end, field, proto_key, assign, canonicalize,
  canonicalize_items, canonicalize_fields,
}
use triage_engine.Json.Order.{insert_field_comm}

-- Two values with the same content: at any depth, the fields of an object in another order.
mutual
  pub data Same : Json → Json → Type 0 where
    alike : {a : Json} → Same a a
    in_arr : {xs ys : Items} → SameItems xs ys → Same (arr xs) (arr ys)
    in_obj : {fs gs : Fields} → SameFields fs gs → Same (obj fs) (obj gs)

  pub data SameItems : Items → Items → Type 0 where
    none_left : SameItems nil nil
    each :
        {a b : Json} {xs ys : Items}
        → Same a b
        → SameItems xs ys
        → SameItems (cons a xs) (cons b ys)

  pub data SameFields : Fields → Fields → Type 0 where
    no_field : SameFields end end
    keep :
        {k : Text} {a b : Json} {fs gs : Fields}
        → Same a b
        → SameFields fs gs
        → SameFields (field k a fs) (field k b gs)
    swap :
        {k j : Text} {a b : Json} {fs : Fields}
        → k ≢ j
        → SameFields (field k a (field j b fs)) (field j b (field k a fs))
    then_same : {fs gs hs : Fields} → SameFields fs gs → SameFields gs hs → SameFields fs hs

assign_comm :
    (k j : Text) (v w : Json) (fs : Fields)
    → k ≢ j
    → assign k v (assign j w fs) ≡ assign j w (assign k v fs)
unfolding assign
assign_comm k j v w fs h =
    ground (arith, text_eq_iff k proto_key, text_eq_iff j proto_key, insert_field_comm k j v w fs h)

mutual
  unfolding canonicalize

  Same-canonicalize : {a b : Json} → Same a b → canonicalize a ≡ canonicalize b
  Same-canonicalize alike = refl
  Same-canonicalize (in_arr s) = ap arr (items_Same s)
  Same-canonicalize (in_obj s) = ap obj (fields_Same s)

  items_Same : {xs ys : Items} → SameItems xs ys → canonicalize_items xs ≡ canonicalize_items ys
  items_Same none_left = refl
  items_Same (each s t) = ap₂ cons (Same-canonicalize s) (items_Same t)

  fields_Same :
      {fs gs : Fields} → SameFields fs gs → canonicalize_fields fs ≡ canonicalize_fields gs
  fields_Same no_field = refl
  fields_Same (keep {k} s t) = ap₂ (assign k) (Same-canonicalize s) (fields_Same t)
  fields_Same (swap {k} {j} {a} {b} {fs} h) =
      assign_comm k j (canonicalize a) (canonicalize b) (canonicalize_fields fs) h
  fields_Same (then_same s t) = fields_Same s ∙ fields_Same t

-- Values with the same content have one canonical form, whatever the order of their keys.
pub canonicalize-Same : {a b : Json} → Same a b → canonicalize a ≡ canonicalize b
canonicalize-Same s = Same-canonicalize s
