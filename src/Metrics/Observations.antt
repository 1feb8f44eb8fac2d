-- ===== src/Metrics/Observations.antt =====
-- The observations of histograms among what a request leaves behind.
use momento_proxy.Base.{ℕ, suc, ◌+◌, ◌≡◌, refl, ap, List, [], ◌∷◌, ◌++◌, map, Bytes, arith}
use momento_proxy.Metrics.{
  Event, add, logged, observed, Latency, latency_ok, latency_error, latency_timeout, latency_miss,
  latency_hit_mcache, latency_hit_momento,
}

-- The observations among the events.
abbrev pub observations : List Event → List Latency
observations [] = []
observations (add c n ∷ es) = observations es
observations (logged l ∷ es) = observations es
observations (observed rpc l ∷ es) = l ∷ observations es

-- How many they are.
abbrev pub seen : List Event → ℕ
seen [] = 0
seen (add c n ∷ es) = seen es
seen (logged l ∷ es) = seen es
seen (observed rpc l ∷ es) = suc (seen es)

pub seen-append : (es fs : List Event) → seen (es ++ fs) ≡ seen es + seen fs
seen-append [] fs = omega arith
seen-append (add c n ∷ es) fs = seen-append es fs
seen-append (logged l ∷ es) fs = seen-append es fs
seen-append (observed rpc l ∷ es) fs = omega (arith, seen-append es fs)

pub seen-logged : (lines : List Bytes) → seen (map logged lines) ≡ 0
seen-logged [] = refl
seen-logged (l ∷ ls) = seen-logged ls

-- How many of them are of an answer that is ok or an error.
abbrev pub of_answers : List Event → ℕ
of_answers [] = 0
of_answers (add c n ∷ es) = of_answers es
of_answers (logged l ∷ es) = of_answers es
of_answers (observed rpc latency_ok ∷ es) = suc (of_answers es)
of_answers (observed rpc latency_error ∷ es) = suc (of_answers es)
of_answers (observed rpc latency_timeout ∷ es) = of_answers es
of_answers (observed rpc latency_miss ∷ es) = of_answers es
of_answers (observed rpc latency_hit_mcache ∷ es) = of_answers es
of_answers (observed rpc latency_hit_momento ∷ es) = of_answers es

pub of_answers-append : (es fs : List Event) → of_answers (es ++ fs) ≡ of_answers es + of_answers fs
of_answers-append [] fs = omega arith
of_answers-append (add c n ∷ es) fs = of_answers-append es fs
of_answers-append (logged l ∷ es) fs = of_answers-append es fs
of_answers-append (observed rpc latency_ok ∷ es) fs = omega (arith, of_answers-append es fs)
of_answers-append (observed rpc latency_error ∷ es) fs = omega (arith, of_answers-append es fs)
of_answers-append (observed rpc latency_timeout ∷ es) fs = of_answers-append es fs
of_answers-append (observed rpc latency_miss ∷ es) fs = of_answers-append es fs
of_answers-append (observed rpc latency_hit_mcache ∷ es) fs = of_answers-append es fs
of_answers-append (observed rpc latency_hit_momento ∷ es) fs = of_answers-append es fs

pub ruleset counts = (arith, seen-append, seen-logged, of_answers-append)

pub observations-append :
    (es fs : List Event) → observations (es ++ fs) ≡ observations es ++ observations fs
observations-append [] fs = refl
observations-append (add c n ∷ es) fs = observations-append es fs
observations-append (logged l ∷ es) fs = observations-append es fs
observations-append (observed rpc l ∷ es) fs = ap (◌∷◌ l) (observations-append es fs)
