-- ===== src/Web/RateLimit.antt =====
-- aqr/chat/web.py: the token bucket of each address. The clock counts milliseconds and a token is
-- 30000 units, so that one unit is refilled per millisecond. The clock is monotonic.
pub mod Bound
use pigeon_trade.Common.{
  ℕ, ◌+◌, ◌-◌, ◌*◌, min, Bool, true, false, ◌&&◌, ◌==◌, String, Option, none, some, List, [], ◌∷◌,
  ltb, if◌then◌else◌,
}
use pigeon_trade.Common.Dict.{Dict, lookup, insert}
use pigeon_trade.Common.Sweep.{stale_keys, remove_all}

-- _RATE_BUCKET_CAPACITY
abbrev pub capacity : ℕ
capacity = 150000

abbrev pub token : ℕ
token = 30000

-- The units that are left, and the time of the last request.
abbrev pub Buckets : Type 0
Buckets = Dict (ℕ × ℕ)

-- _prune_rate_buckets
unfoldable pub prune_rate_buckets : ℕ → Buckets → Buckets
prune_rate_buckets now d = remove_all (stale_keys (λ b. ltb 300000 (now - b.1)) d) d

-- An address without a bucket has a full one.
abbrev pub refilled : ℕ → Option (ℕ × ℕ) → ℕ
refilled now none = capacity
refilled now (some (tokens, last_ts)) = min capacity (tokens + (now - last_ts))

abbrev pub available : String → ℕ → Buckets → ℕ
available ip now d = refilled now (lookup ip d)

-- _rate_limit_consume
unfoldable pub rate_limit_consume : String → ℕ → Buckets → Bool × Buckets
unfolding prune_rate_buckets
rate_limit_consume ip now d =
    let tokens = available ip now d in
    if ltb tokens token
    then (false, insert ip (tokens, now) d)
    else (true, prune_rate_buckets now (insert ip (tokens - token, now) d))

-- How many of the requests, each with its address and time, are granted to an address.
unfoldable pub granted : String → List (String × ℕ) → Buckets → ℕ
unfolding rate_limit_consume
granted ip [] d = 0
granted ip ((who, now) ∷ requests) d =
    let (allowed, d') = rate_limit_consume who now d in
    (if allowed && who == ip then 1 else 0) + granted ip requests d'
