-- ===== src/Json/Order.antt =====
-- Insertion by key: the order of two insertions does not matter, and the result is sorted.
use triage_engine.Prelude.{Text, text_leb_total, text_leb_antisymm, text_leb_trans, ◌≡◌, ◌≢◌, arith}
use triage_engine.Json.{Json, Fields, end, field, insert_field}

-- Two keys that differ may be inserted in either order.
pub insert_field_comm :
    (k j : Text) (v w : Json) (fs : Fields)
    → k ≢ j
    → insert_field k v (insert_field j w fs) ≡ insert_field j w (insert_field k v fs)
unfolding insert_field
insert_field_comm k j v w end h = ground (arith, text_leb_total k j, text_leb_antisymm k j)
insert_field_comm k j v w (field i u fs) h = ground (
  arith,
  text_leb_total k j,
  text_leb_total j i,
  text_leb_total k i,
  text_leb_antisymm k j,
  text_leb_trans k i j,
  text_leb_trans j i k,
  text_leb_trans k j i,
  text_leb_trans j k i,
  insert_field_comm k j v w fs h,
)
