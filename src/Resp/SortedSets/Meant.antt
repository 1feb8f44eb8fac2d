-- ===== src/Resp/SortedSets/Meant.antt =====
-- What the arguments of the sorted set commands mean, described again for the theorems on their replies.
use momento_proxy.Base.{Bool, true, false, ◌||◌, Option, none, some, if◌then◌else◌}
use momento_proxy.Client.{
  Floats, SortedSetOrder, ascending, descending, ScoreBound, inclusive, exclusive,
  AggregateFunction,
}
use momento_proxy.Resp.SortedSets.Stores.{AddArgs}

module _ (F : Floats) where
  -- Infinity as a lower bound asks for nothing but the greatest score; as an upper one it is none.
  abbrev pub low_bound : F.F64 → Bool → Option (ScoreBound F.F64)
  low_bound s is_exclusive =
      if F.equal s F.neg_infinity
      then none
      else if F.equal s F.infinity
      then some (inclusive F.max)
      else if is_exclusive
      then some (exclusive s)
      else some (inclusive s)

  abbrev pub high_bound : F.F64 → Bool → Option (ScoreBound F.F64)
  high_bound s is_exclusive =
      if F.equal s F.infinity
      then none
      else if F.equal s F.neg_infinity
      then some (exclusive F.min)
      else if is_exclusive
      then some (exclusive s)
      else some (inclusive s)

  -- The greatest and the least score stand for the infinite ones.
  abbrev pub added_score : F.F64 → F.F64
  added_score s =
      if F.equal s F.infinity then F.max else if F.equal s F.neg_infinity then F.min else s

  abbrev pub increment_score : F.F64 → F.F64
  increment_score s =
      if F.equal s F.neg_infinity then F.min else if F.equal s F.infinity then F.max else s

-- Of the options of ZADD only INCR is there.
abbrev pub has_unsupported : AddArgs → Bool
has_unsupported args = args.ch || (args.xx || (args.nx || (args.gt || args.lt)))

abbrev pub direction : Option Bool → SortedSetOrder
direction (some true) = descending
direction (some false) = ascending
direction none = ascending

abbrev pub sum_unless : Option AggregateFunction → AggregateFunction
sum_unless (some f) = f
sum_unless none = AggregateFunction.sum
