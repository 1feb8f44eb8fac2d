-- ===== src/Resp/Silent.antt =====
-- Handlers that leave the guard of their call alone, so that it is the caller who ends it.
use momento_proxy.Base.{◌≡◌, refl, ◌∙◌, List, [], ◌∷◌, ◌++◌, Bytes, arith}
use momento_proxy.Base.Exec.{Result, ok, err, panicked, continue, lift, ◌>>=◌, for_each}
use momento_proxy.Error.{ProxyError, Outcome, done, failed, elapsed}
use momento_proxy.Client.{Rpc}
use momento_proxy.Metrics.{Counter, add}
use momento_proxy.Metrics.Observations.{seen, seen-append, counts}
use momento_proxy.Context.{Context, Handler, call, or_return, or_raise, klogs, klog, increment}
use momento_proxy.Resp.Utils.{
  count_error, update_method_metrics, command, write_bulks, write_unterminated,
}

module _ {S : Type 0} where
  -- The guard is as it was, and nothing more has been observed.
  abbrev pub Same : Context S → Context S → Type 0
  Same c d = (d.recorder ≡ c.recorder) × (seen d.events ≡ seen c.events)

  pub Same-trans : (c d e : Context S) → Same c d → Same d e → Same c e
  Same-trans c d e (p, q) (r, s) = (r ∙ p, s ∙ q)

module _ {S E A : Type 0} where
  pub record Silent (m : Handler S E A) : Type 0 where
    pub at : (c : Context S) → Same c (m c).1

module _ {S E A B : Type 0} where
  continue-Silent :
      (r : Result (ProxyError E) A) (k : A → Handler S E B) (c : Context S)
      → ((a : A) → Silent (k a))
      → Same c (continue r k c).1
  continue-Silent (ok a) k c h = (h a).at c
  continue-Silent (err e) k c h = (refl, refl)
  continue-Silent panicked k c h = (refl, refl)

  pub bind-Silent :
      (m : Handler S E A) (k : A → Handler S E B)
      → Silent m
      → ((a : A) → Silent (k a))
      → Silent (m >>= k)
  bind-Silent m k h f = record {
    at = λ c.
        Same-trans c (m c).1 (continue (m c).0 k (m c).1).1 (h.at c)
          (continue-Silent (m c).0 k (m c).1 f);
  }

  -- The same, for a computed result of a step that has been silent.
  pub then-Silent :
      (m : Handler S E A) (k : A → Handler S E B) (c d : Context S)
      → Same c d
      → Silent m
      → ((a : A) → Silent (k a))
      → Same c ((m >>= k) d).1
  then-Silent m k c d h n f = Same-trans c d ((m >>= k) d).1 h ((bind-Silent m k n f).at d)

module _ {S E : Type 0} where
  -- Whatever a call returns, what follows it may go on or end in an error.
  pub or_return-Silent :
      {A : Type 0}
      → (on_error on_timeout : Handler S E (Unit {0})) (o : Outcome E A) → Silent on_error
      → Silent on_timeout
      → Silent (or_return on_error on_timeout o)
  or_return-Silent e t (done a) h k = record { at = λ c. (refl, refl) }
  or_return-Silent e t (failed x) h k = bind-Silent e _ h (λ a. record { at = λ d. (refl, refl) })
  or_return-Silent e t elapsed h k = bind-Silent t _ k (λ a. record { at = λ d. (refl, refl) })

  pub or_raise-Silent : {A : Type 0} → (o : Outcome E A) → Silent (or_raise {S = S} o)
  or_raise-Silent (done a) = record { at = λ c. (refl, refl) }
  or_raise-Silent (failed x) = record { at = λ c. (refl, refl) }
  or_raise-Silent elapsed = record { at = λ c. (refl, refl) }

  pub lift-Silent : {A : Type 0} → (r : Result (ProxyError E) A) → Silent (lift {S = Context S} r)
  lift-Silent r = record { at = λ c. (refl, refl) }

  pub klogs-Silent : (lines : List Bytes) → Silent (klogs {S = S} {E = E} lines)
  klogs-Silent lines = record { at = λ c. (refl, omega counts) }

  pub for_each-Silent :
      {A : Type 0}
      → (xs : List A) (body : A → Handler S E (Unit {0})) → ((a : A) → Silent (body a))
      → Silent (for_each xs body)
  for_each-Silent [] body h = record { at = λ c. (refl, refl) }
  for_each-Silent (x ∷ xs) body h = bind-Silent (body x) _ (h x) (λ a. for_each-Silent xs body h)

  count_error-Same :
      {A : Type 0}
      → (k : Counter) (r : Result (ProxyError E) A) (c d : Context S) → Same c d
      → Same c (count_error {S = S} k (r, d)).1
  unfolding count_error
  count_error-Same k (ok a) c d h = h
  count_error-Same k (err e) c d (p, q) = (p, omega (arith, seen-append, q))
  count_error-Same k panicked c d h = h

  pub method-Silent :
      {A : Type 0}
      → (count count_ex : Counter) (m : Handler S E A) → Silent m
      → Silent (update_method_metrics count count_ex m)
  unfolding update_method_metrics
  method-Silent count count_ex m h = record {
    at = λ c.
        let c' : Context S = record c { events = c.events ++ add count 1 ∷ [] } in
        count_error-Same count_ex (m c').0 c (m c').1
          (Same-trans c c' (m c').1 (refl, omega counts) (h.at c'));
  }

  -- A call and what follows its outcome.
  pub call-Silent :
      {A B : Type 0}
      → (rpc : Rpc S E A) (k : Outcome E A → Handler S E B) → ((o : Outcome E A) → Silent (k o))
      → Silent (call rpc >>= k)
  call-Silent rpc k h = record {
    at = λ c. (h (rpc c.backend).0).at (record c { backend = (rpc c.backend).1 });
  }

  pub command-Silent :
      {A : Type 0}
      → (count count_ex : Counter) (rpc : Rpc S E A) (on_error on_timeout : List Bytes)
        (reply : A → Handler S E (Unit {0}))
      → ((a : A) → Silent (reply a))
      → Silent (command count count_ex rpc on_error on_timeout reply)
  unfolding command
  command-Silent count count_ex rpc on_error on_timeout reply h = method-Silent count count_ex _ (
      call-Silent rpc _ λ o.
        bind-Silent (or_return (klogs on_error) (klogs on_timeout) o) reply
          (or_return-Silent _ _ o (klogs-Silent on_error) (klogs-Silent on_timeout)) h)

  pub write_bulks-Silent : (values : List Bytes) → Silent (write_bulks {S = S} {E = E} values)
  unfolding write_bulks
  write_bulks-Silent values = for_each-Silent values _ (λ v. record { at = λ c. (refl, refl) })

  pub write_unterminated-Silent :
      (values : List Bytes) → Silent (write_unterminated {S = S} {E = E} values)
  unfolding write_unterminated
  write_unterminated-Silent values =
      for_each-Silent values _ (λ v. record { at = λ c. (refl, refl) })

  pub klog-Silent : (line : Bytes) → Silent (klog {S = S} {E = E} line)
  klog-Silent line = record { at = λ c. (refl, omega counts) }

  pub counted-Silent :
      (k : Counter) (line : Bytes) → Silent (increment {S = S} {E = E} k >>= λ _. klog line)
  counted-Silent k line = record { at = λ c. (refl, omega counts) }
