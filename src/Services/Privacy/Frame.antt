-- ===== src/Services/Privacy/Frame.antt =====
-- What the scripts of a delivery in flight leave alone.
use mathlib.Core.Logic.{if_neg}
use alert_bot_project.Common.{ℕ, Text, ◌≡◌, ◌≢◌, ◌∙◌, arith}
use alert_bot_project.Redis.{Key, Key-discrete, Redis, inflight}
use alert_bot_project.Services.Privacy.{begin_delivery, end_delivery}

module _ (R : Redis) where
  open R use {Keys, get, del, incr, decr, expire, get-del, get-expire_ne, get-incr_ne, get-decr_ne}

  flight_frame :
      (t u : ℕ) (id : Text) (s : Keys) (j : Key)
      → inflight id ≢ j
      → (get u (expire t (inflight id) 600000 (incr t (inflight id) s)) j ≡ get u s j)
        × (get u (del (inflight id) s) j ≡ get u s j)
        × (get u (decr t (inflight id) s) j ≡ get u s j)
  flight_frame t u id s j h = (
    get-expire_ne t u _ _ j 600000 h ∙ get-incr_ne t u s _ j h,
    rw (get-del u s (inflight id) j, if_neg (Key-discrete (inflight id) j) h),
    get-decr_ne t u s _ j h,
  )

  pub get-begin_delivery :
      (t u : ℕ) (id g : Text) (s : Keys) (j : Key)
      → inflight id ≢ j
      → get u (begin_delivery R t id g s).1 j ≡ get u s j
  unfolding begin_delivery
  get-begin_delivery t u id g s j h = ground (arith, flight_frame t u id s j h)

  pub get-end_delivery :
      (t u : ℕ) (id : Text) (s : Keys) (j : Key)
      → inflight id ≢ j
      → get u (end_delivery R t id s) j ≡ get u s j
  unfolding end_delivery
  get-end_delivery t u id s j h = ground (arith, flight_frame t u id s j h)
