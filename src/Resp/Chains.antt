-- ===== src/Resp/Chains.antt =====
-- Results one after the other, as the descriptions of the replies use them; nothing here is code of the proxy.
use momento_proxy.Base.{◌≡◌, refl}
use momento_proxy.Base.Exec.{Result, ok, err, panicked, continue, ◌>>=◌}
use momento_proxy.Error.{ProxyError, momento, timeout, Outcome, done, failed, elapsed}
use momento_proxy.Context.{Context, Handler}

module _ {E A B : Type 0} where
  -- What follows a result, if it is one.
  abbrev pub and_then : Result E A → (A → Result E B) → Result E B
  and_then (ok a) f = f a
  and_then (err e) f = err e
  and_then panicked f = panicked

pub and_then-ap :
    {E A B : Type 0}
    → (r : Result E A) (f g : A → Result E B) → ((a : A) → f a ≡ g a)
    → and_then r f ≡ and_then r g
and_then-ap (ok a) f g h = h a
and_then-ap (err e) f g h = refl
and_then-ap panicked f g h = refl

module _ {E A : Type 0} where
  -- What a call returns under `?`.
  abbrev pub result_of : Outcome E A → Result (ProxyError E) A
  result_of (done a) = ok a
  result_of (failed e) = err (momento e)
  result_of elapsed = err timeout

module _ {S E : Type 0} where
  pub continue_assoc :
      {A B C : Type 0}
      → (r : Result (ProxyError E) A) (f : A → Handler S E B) (k : B → Handler S E C)
        (c : Context S)
      → continue (continue r f c).0 k (continue r f c).1 ≡ continue r (λ a. f a >>= k) c
  continue_assoc (ok a) f k c = refl
  continue_assoc (err e) f k c = refl
  continue_assoc panicked f k c = refl
