-- ===== src/Clients/Timeouts.antt =====
-- The timeout that the clients send with a list, a watch and the deletion of a collection.
use rbacsync.Prelude.{◌≡◌, ◌↔◌, subst, some, arith}
use rbacsync.Integers.{ℤ, IsInt64, scaled}
use rbacsync.Clients.{timeout_of}

fits : (s : ℤ) → IsInt64 (timeout_of (some s))
unfolding timeout_of
fits s = ground arith

exact : (s : ℤ) → IsInt64 (scaled 1000000000 s) → timeout_of (some s) ≡ scaled 1000000000 s
unfolding timeout_of
exact s h = ground arith

-- The timeout of any number of seconds, negative ones included, is an int64, and it is their
-- nanoseconds exactly if those are an int64.
pub timeout_of-bounds :
    (s : ℤ)
    → IsInt64 (timeout_of (some s))
      × ((timeout_of (some s) ≡ scaled 1000000000 s) ↔ IsInt64 (scaled 1000000000 s))
timeout_of-bounds s = (fits s, (λ same. subst IsInt64 same (fits s), exact s))
