-- ===== src/Outbox/Sink/Laws.antt =====
-- The consumer accepts each key once while it tracks it, and its map stays within its limit.
use triage_engine.Prelude.{
  ℕ, suc, ◌+◌, ◌≤◌, ◌<◌, Text, text_eq, text_eq_iff, Bool, true, false, not, ◌&&◌, ◌||◌, List, [],
  ◌∷◌, Option, some, or_else, is_some, ltb, length, if◌then◌else◌, ◌≡◌, refl, ◌⊎◌, arith, All,
  Bool-cases, inl, inr,
}
use triage_engine.Outbox.Sink.{
  max_tracked_deliveries, Deliveries, get, put, evict, tracked_key, receive,
}

get-put :
    (j k : Text) (n : ℕ) (m : Deliveries)
    → get j (put k n m) ≡ (if text_eq k j then some n else get j m)
unfolding get put
get-put j k n [] = refl
get-put j k n ((i, old) ∷ m) =
    ground (arith, text_eq_iff i k, text_eq_iff i j, text_eq_iff k j, get-put j k n m)

length-put :
    (k : Text) (n : ℕ) (m : Deliveries)
    → length (put k n m) ≡ (if is_some (get k m) then length m else suc (length m))
unfolding get put
length-put k n [] = refl
length-put k n ((i, old) ∷ m) = ground (arith, length-put k n m)

evict_room : (limit : ℕ) (m : Deliveries) → length m ≤ limit → evict limit m ≡ m
unfolding evict
evict_room limit [] h = refl
evict_room limit (e ∷ m) h = ground arith

length-evict : (limit : ℕ) (m : Deliveries) → length (evict limit m) ≤ limit
unfolding evict
length-evict limit [] = omega arith
length-evict limit (e ∷ m) = ground (arith, length-evict limit m)

-- Every tracked key was delivered at least once.
abbrev AllCounted : Deliveries → Type 0
AllCounted = All (λ (e : Text × ℕ). 0 < e.1)

put-AllCounted : (k : Text) (n : ℕ) (m : Deliveries) → 0 < n → AllCounted m → AllCounted (put k n m)
unfolding put
put-AllCounted k n [] h a = (h, tt)
put-AllCounted k n ((i, old) ∷ m) h a = elim (Bool-cases (text_eq i k)) [
  | inl hit ↦ rw hit (h, a.1)
  | inr miss ↦ rw miss (a.0, put-AllCounted k n m h a.1)
]

evict-AllCounted : (limit : ℕ) (m : Deliveries) → AllCounted m → AllCounted (evict limit m)
unfolding evict
evict-AllCounted limit [] a = tt
evict-AllCounted limit (e ∷ m) a = elim (Bool-cases (ltb limit (length (e ∷ m)))) [
  | inl over ↦ rw over (evict-AllCounted limit m a.1)
  | inr fits ↦ rw fits a
]

get_counted :
    (k : Text) (m : Deliveries) → AllCounted m → ltb 1 (or_else (get k m) 0 + 1) ≡ is_some (get k m)
unfolding get
get_counted k [] a = refl
get_counted k ((i, n) ∷ m) a = ground (arith, get_counted k m a.1)

-- The state of the consumer after any deliveries.
pub record IsSink (m : Deliveries) : Type 0 where
  pub counted : AllCounted m
  pub bounded : length m ≤ max_tracked_deliveries

-- A delivery is answered as a duplicate exactly when its key is tracked. Where the map has room for
-- it, the key's count goes up by one and no other key's changes; the map never outgrows its limit.
pub receive_lem :
    (idempotency_key : Option Text) (m : Deliveries)
    → IsSink m
    → let key = tracked_key idempotency_key in
      let result = receive idempotency_key m in
      (result.0 ≡ is_some (get key m))
      × IsSink result.1
      × ((is_some (get key m) ≡ true) ⊎ (length m < max_tracked_deliveries)
          → (j : Text)
          → get j result.1 ≡ (if text_eq key j then some (or_else (get key m) 0 + 1) else get j m))
unfolding receive
receive_lem idempotency_key m v =
    let key = tracked_key idempotency_key in
    let seen = or_else (get key m) 0 + 1 in
    (
      get_counted key m v.counted,
      record {
        counted =
            evict-AllCounted max_tracked_deliveries (put key seen m)
              (put-AllCounted key seen m (omega arith) v.counted);
        bounded = length-evict max_tracked_deliveries (put key seen m);
      },
      λ room j.
          rw
            (evict_room max_tracked_deliveries (put key seen m)
              (ground (arith, length-put key seen m, v.bounded, room)))
            (get-put j key seen m),
    )

-- Deliveries one after another, and how many of a key's the consumer took for new.
pub accepted : (k : Text) → List (Option Text) → Deliveries → ℕ
accepted k [] m = 0
accepted k (d ∷ ds) m =
    (if text_eq (tracked_key d) k && not (receive d m).0 then 1 else 0)
    + accepted k ds (receive d m).1

pub was_delivered : Text → List (Option Text) → Bool
was_delivered k [] = false
was_delivered k (d ∷ ds) = text_eq (tracked_key d) k || was_delivered k ds

-- A new entry takes one place at most.
pub length-receive :
    (d : Option Text) (m : Deliveries)
    → length m < max_tracked_deliveries
    → length (receive d m).1 ≤ length m + 1
unfolding receive
length-receive d m h =
    let key = tracked_key d in
    let seen = or_else (get key m) 0 + 1 in
    let grown = length-put key seen m in
    rw (evict_room max_tracked_deliveries (put key seen m) (ground (arith, grown)))
      (ground (arith, grown))

-- However often and in whatever order effects are delivered: as long as the map has room for all
-- of them, a key that was not tracked is taken for new once if it is delivered at all, and a key
-- that was tracked never.
pub accepted_once :
    (k : Text) (ds : List (Option Text)) (m : Deliveries)
    → IsSink m
    → length m + length ds ≤ max_tracked_deliveries
    → accepted k ds m ≡ (if not (is_some (get k m)) && was_delivered k ds then 1 else 0)
unfolding accepted was_delivered
accepted_once k [] m v h = ground arith
accepted_once k (d ∷ ds) m v h =
    let (flag, v', counts) = receive_lem d m v in
    let room : length m < max_tracked_deliveries = omega arith in
    ground (
      arith,
      flag,
      counts (inr room) k,
      text_eq_iff (tracked_key d) k,
      accepted_once k ds (receive d m).1 v' (omega (arith, length-receive d m room)),
    )
