-- ===== src/Examples/Lines.antt =====
-- Lines of the command log for keys with a quote, a space and a byte that is no letter.
use momento_proxy.Base.{◌≡◌, some, [], ◌∷◌, ◌++◌, Bytes, codes, arith}
use momento_proxy.Base.Int.{negsuc}
use momento_proxy.Base.Decimal.{decimal, decimal_int}
use momento_proxy.Klog.{hit, stored, status_code, klog_1, klog_2, klog_7, klog_set}
use momento_proxy.Klog.ReadBack.{words, read_line, read_line-klog, klog_2_ambiguous}

abbrev key : Bytes
key = 34 ∷ 32 ∷ 200 ∷ []

abbrev field : Bytes
field = 92 ∷ 10 ∷ []

read_line-klog_example :
    (read_line (klog_1 "hset" key hit 5)
      ≡ some (words (codes "hset" ∷ key ∷ []), status_code hit, 5))
    × (read_line (klog_2 "hset" key field hit 5)
        ≡ some (words (codes "hset" ∷ key ∷ field ∷ []), status_code hit, 5))
    × (read_line (klog_7 "hset" key field (negsuc 0) 7 hit 5)
        ≡ some (
          words (codes "hset" ∷ key ∷ field ∷ decimal_int (negsuc 0) ∷ decimal 7 ∷ []),
          status_code hit,
          5,
        ))
    × (read_line (klog_set key 3 (negsuc 0) 7 hit 5)
        ≡ some (
          words (codes "set" ∷ key ∷ decimal 3 ∷ decimal_int (negsuc 0) ∷ decimal 7 ∷ []),
          status_code hit,
          5,
        ))
read_line-klog_example =
    read_line-klog "hset" key field 3 (negsuc 0) 7 hit 5 (omega arith) (omega arith) (omega arith)

klog_2_ambiguous_example :
    klog_2 "hget" (codes "a" ++ 32 ∷ codes "b") (codes "c") stored 0
    ≡ klog_2 "hget" (codes "a") (codes "b" ++ 32 ∷ codes "c") stored 0
klog_2_ambiguous_example = klog_2_ambiguous "hget" (codes "a") (codes "b") (codes "c") stored 0
