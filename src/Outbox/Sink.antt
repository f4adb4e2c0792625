-- ===== src/Outbox/Sink.antt =====
-- outbox/sink.controller.ts: the bundled consumer. The Map is the list of its entries in insertion
-- order.
pub mod Laws
use triage_engine.Prelude.{
  ℕ, ◌+◌, ◌<◌, Text, codes, text_eq, Bool, List, [], ◌∷◌, Option, none, some, or_else, ltb, length,
  take, if◌then◌else◌, suc,
}

abbrev pub max_tracked_deliveries : ℕ
max_tracked_deliveries = 5000

abbrev pub max_key_length : ℕ
max_key_length = 200

abbrev pub Deliveries : Type 0
Deliveries = List (Text × ℕ)

-- map.get(key)
unfoldable pub get : Text → Deliveries → Option ℕ
get key [] = none
get key ((k, n) ∷ m) = if text_eq k key then some n else get key m

-- map.set(key, n): an entry that is there keeps its place.
unfoldable pub put : Text → ℕ → Deliveries → Deliveries
put key n [] = (key, n) ∷ []
put key n ((k, old) ∷ m) = if text_eq k key then (k, n) ∷ m else (k, old) ∷ put key n m

-- The loop deletes the first key, the oldest, while the map is too large.
unfoldable pub evict : (limit : ℕ) → Deliveries → Deliveries
evict limit [] = []
evict limit (entry ∷ m) = if ltb limit (length (entry ∷ m)) then evict limit m else entry ∷ m

abbrev pub tracked_key : Option Text → Text
tracked_key idempotency_key = take max_key_length (or_else idempotency_key (codes "none"))

-- The answer's `duplicate` flag, and the map.
unfoldable pub receive : (idempotency_key : Option Text) → Deliveries → Bool × Deliveries
unfolding get put evict
receive idempotency_key m =
    let key = tracked_key idempotency_key in
    let seen = or_else (get key m) 0 + 1 in
    (ltb 1 seen, evict max_tracked_deliveries (put key seen m))

abbrev sum_counts : ℕ → Deliveries → ℕ
sum_counts total [] = total
sum_counts total ((k, n) ∷ m) = sum_counts (total + n) m

pub data DeliveriesView : Type 0 where
  of_key : (dedup_key : Text) (count : ℕ) → DeliveriesView
  totals : (unique total : ℕ) → DeliveriesView

-- GET /_sink/deliveries; the empty key is no key.
abbrev pub list : (dedup_key : Option Text) → Deliveries → DeliveriesView
list none m = totals (length m) (sum_counts 0 m)
list (some []) m = totals (length m) (sum_counts 0 m)
list (some (c ∷ cs)) m = of_key (c ∷ cs) (or_else (get (take max_key_length (c ∷ cs)) m) 0)
