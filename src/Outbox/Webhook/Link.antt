-- ===== src/Outbox/Webhook/Link.antt =====
-- The webhook's target is the bundled sink, over a network that may lose a request, lose the response
-- to it, or have something before the sink answer instead, by a status of 300 and above.
use triage_engine.Prelude.{
  ℕ, ◌+◌, ◌≤◌, ◌<◌, Text, codes, text_eq, text_eq_iff, text_eq_refl, Bool, true, not, ◌&&◌, List,
  [], ◌∷◌, drop, length, Option, some, is_some, if◌then◌else◌, ◌≡◌, inr, arith,
}
use triage_engine.Outbox.Sink.{Deliveries, get, receive, tracked_key, max_tracked_deliveries}
use triage_engine.Outbox.Sink.Laws.{IsSink, receive_lem, length-receive}
use triage_engine.Outbox.Webhook.{HttpRequest, Fetched, responded, threw, is_ok}

pub data Hop : Type 0 where
  carries : Hop
  loses_request : (message : Text) → Hop
  loses_response : (message : Text) → Hop
  refuses : (above : ℕ) (status_text : Text) → Hop

-- What the network does with the next requests, the sink, and what it has taken: the tracked key of each
-- request that reached it and whether it took it for a duplicate, newest first.
pub record Link : Type 0 where
  pub hops : List Hop
  pub sink : Deliveries
  pub taken : List (Text × Bool)

-- The request reaches the sink.
unfoldable pub take_in : HttpRequest → Link → Link
take_in request link =
    let answer = receive (some request.idempotency_key) link.sink in
    record link {
      sink = answer.1;
      taken = (tracked_key (some request.idempotency_key), answer.0) ∷ link.taken;
    }

-- The request with what the network does to it; the sink answers 200.
unfoldable pub pass : Hop → HttpRequest → Link → Fetched × Link
unfolding take_in
pass carries request link = (responded 200 (codes "OK"), take_in request link)
pass (loses_request message) request link = (threw message, link)
pass (loses_response message) request link = (threw message, take_in request link)
pass (refuses above status_text) request link = (responded (300 + above) status_text, link)

-- The network is sound from where the list ends.
abbrev pub next_hop : List Hop → Hop
next_hop [] = carries
next_hop (hop ∷ hops) = hop

unfoldable pub post : HttpRequest → Link → Fetched × Link
unfolding pass
post request link = pass (next_hop link.hops) request (record link { hops = drop 1 link.hops })

-- How often the sink took the key for new.
unfoldable pub times_new : Text → List (Text × Bool) → ℕ
times_new key [] = 0
times_new key ((k, duplicate) ∷ taken) =
    (if text_eq k key && not duplicate then 1 else 0) + times_new key taken

abbrev pub is_tracked : Text → Deliveries → Bool
is_tracked key sink = is_some (get key sink)

-- The sink took each key that it tracks for new once, and no other key.
pub record IsLink (link : Link) : Type 0 where
  pub sound : IsSink link.sink
  pub once : (key : Text) → times_new key link.taken ≡ (if is_tracked key link.sink then 1 else 0)

-- What a request leaves: the sink forgets no key and has one more at most.
pub record Grows (link after : Link) : Type 0 where
  pub linked : IsLink after
  pub kept : (key : Text) → is_tracked key link.sink ≡ true → is_tracked key after.sink ≡ true
  pub size : length after.sink ≤ length link.sink + 1

take_in-Grows :
    (request : HttpRequest) (link : Link)
    → IsLink link
    → length link.sink < max_tracked_deliveries
    → Grows link (take_in request link)
      × (is_tracked (tracked_key (some request.idempotency_key)) (take_in request link).sink ≡ true)
unfolding take_in times_new
take_in-Grows request link v room =
    let d : Option Text = some request.idempotency_key in
    let (flag, sound, counts) = receive_lem d link.sink v.sound in
    let counted = counts (inr room) in
    (
      record {
        linked = record {
          sound = sound;
          once =
              λ key. ground (arith, flag, counted key, text_eq_iff (tracked_key d) key, v.once key);
        };
        kept = λ key h. ground (arith, counted key, h);
        size = length-receive d link.sink room;
      },
      ground (arith, counted (tracked_key d), text_eq_refl (tracked_key d)),
    )

same-Grows :
    (link : Link) (hops : List Hop) → IsLink link → Grows link (record link { hops = hops })
same-Grows link hops v = record {
  linked = record { sound = v.sound; once = v.once };
  kept = λ key h. h;
  size = omega arith;
}

-- A response in the 200s says that the sink tracks the request's key.
abbrev pub Arrived : HttpRequest → Fetched → Link → Type 0
Arrived request (threw message) after = Unit
Arrived request (responded status status_text) after =
    is_ok status ≡ true → is_tracked (tracked_key (some request.idempotency_key)) after.sink ≡ true

pass-Grows :
    (hop : Hop) (request : HttpRequest) (link : Link)
    → IsLink link
    → length link.sink < max_tracked_deliveries
    → let result = pass hop request link in Grows link result.1 × Arrived request result.0 result.1
unfolding pass
pass-Grows carries request link v room =
    let (grows, tracked) = take_in-Grows request link v room in (grows, λ ok. tracked)
pass-Grows (loses_request message) request link v room = (same-Grows link link.hops v, tt)
pass-Grows (loses_response message) request link v room =
    ((take_in-Grows request link v room).0, tt)
pass-Grows (refuses above status_text) request link v room =
    (same-Grows link link.hops v, λ ok. absurd (ground (arith, ok)))

-- Whatever the network does with a request, the sink has taken each key that it tracks for new once, it
-- tracks what it tracked before, and it tracks the key of a request that is answered in the 200s.
pub post-Grows :
    (request : HttpRequest) (link : Link)
    → IsLink link
    → length link.sink < max_tracked_deliveries
    → let result = post request link in Grows link result.1 × Arrived request result.0 result.1
unfolding post
post-Grows request link v room =
    let link' : Link = record link { hops = drop 1 link.hops } in
    let (grows, arrived) =
      pass-Grows (next_hop link.hops) request link' (same-Grows link (drop 1 link.hops) v).linked
        room in
    (record { linked = grows.linked; kept = grows.kept; size = grows.size }, arrived)
