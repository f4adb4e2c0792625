-- ===== src/Pipeline/JobId.antt =====
-- The ids of BullMQ jobs: events/events.service.ts admits the keys that they are built from, and
-- pipeline/pipeline.producer.ts builds them.
pub mod Laws
use triage_engine.Prelude.{
  ℕ, Text, codes, Bool, true, false, not, ◌&&◌, ◌||◌, List, [], ◌∷◌, ◌++◌, length, all, leb, ◌==◌,
  colon, show_ℕ,
}

abbrev is_digit : ℕ → Bool
is_digit c = leb b'0' c && leb c b'9'

abbrev is_alphanumeric : ℕ → Bool
is_alphanumeric c = (leb b'A' c && leb c b'Z') || (leb b'a' c && leb c b'z') || is_digit c

abbrev is_key_char : ℕ → Bool
is_key_char c = is_alphanumeric c || c == b'.' || c == b'_' || c == b'~' || c == b'-'

-- /^[A-Za-z0-9][A-Za-z0-9._~-]{0,254}$/
pub matches_key_pattern : Text → Bool
matches_key_pattern [] = false
matches_key_pattern (c ∷ cs) = is_alphanumeric c && all is_key_char cs && leb (length cs) 254

-- The two tests of `assertUsableAsJobId`; where one fails, it throws the 400.
unfoldable pub is_usable_as_job_id : Text → Bool
unfolding matches_key_pattern
is_usable_as_job_id key = matches_key_pattern key && not (all is_digit key)

-- `${key}:replay:${deadLetterId}`
unfoldable pub replay_job_id : (key dead_letter_id : Text) → Text
replay_job_id key dead_letter_id = key ++ (colon ∷ codes "replay" ++ (colon ∷ dead_letter_id))

-- `${key}:upgrade:${attempt}`
unfoldable pub upgrade_job_id : (key : Text) (attempt : ℕ) → Text
upgrade_job_id key attempt = key ++ (colon ∷ codes "upgrade" ++ (colon ∷ show_ℕ attempt))

-- `${key}:reconcile:0`
unfoldable pub reconcile_job_id : (key : Text) → Text
reconcile_job_id key = key ++ (colon ∷ codes "reconcile" ++ (colon ∷ codes "0"))
