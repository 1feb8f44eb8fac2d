-- ===== src/Resp/Calls.antt =====
-- What a command leaves of the service: a reply makes no call.
use momento_proxy.Base.{◌≡◌, refl, ◌∙◌, List, [], ◌∷◌, Bytes}
use momento_proxy.Base.Exec.{Result, ok, err, panicked, continue, ◌>>=◌, for_each}
use momento_proxy.Error.{ProxyError, is_done, is_failed, is_elapsed, ends}
use momento_proxy.Client.{Rpc}
use momento_proxy.Metrics.{Counter}
use momento_proxy.Context.{Context, Handler, call, or_return, klogs}
use momento_proxy.Resp.Utils.{count_error, update_method_metrics, command, write_bulks}

module _ {S E : Type 0} where
  -- A handler that makes no call.
  pub record Leaves (m : Handler S E (Unit {0})) : Type 0 where
    pub at : (c : Context S) → (m c).1.backend ≡ c.backend

  continue-backend :
      (r : Result (ProxyError E) (Unit {0})) (n : Unit {0} → Handler S E (Unit {0})) (c : Context S)
      → ((a : Unit {0}) → Leaves (n a))
      → (continue r n c).1.backend ≡ c.backend
  continue-backend (ok a) n c h = (h a).at c
  continue-backend (err e) n c h = refl
  continue-backend panicked n c h = refl

  pub bind-Leaves :
      (m : Handler S E (Unit {0})) (n : Unit {0} → Handler S E (Unit {0}))
      → Leaves m
      → ((a : Unit {0}) → Leaves (n a))
      → Leaves (m >>= n)
  bind-Leaves m n h k = record { at = λ c. continue-backend (m c).0 n (m c).1 k ∙ h.at c }

  pub for_each-Leaves :
      {A : Type 0}
      → (xs : List A) (body : A → Handler S E (Unit {0})) → ((a : A) → Leaves (body a))
      → Leaves (for_each xs body)
  for_each-Leaves [] body h = record { at = λ c. refl }
  for_each-Leaves (x ∷ xs) body h = bind-Leaves (body x) _ (h x) (λ a. for_each-Leaves xs body h)

  pub write_bulks-Leaves : (values : List Bytes) → Leaves (write_bulks {S = S} {E = E} values)
  unfolding write_bulks
  write_bulks-Leaves values = for_each-Leaves values _ (λ v. record { at = λ c. refl })

  count_error-backend :
      (k : Counter) (p : Result (ProxyError E) (Unit {0}) × Context S)
      → (count_error {S = S} k p).1.backend ≡ p.1.backend
  unfolding count_error
  count_error-backend k (ok a, c) = refl
  count_error-backend k (err e, c) = refl
  count_error-backend k (panicked, c) = refl

  -- The same, for a computed result of a step that has made no call.
  pub then-Leaves :
      (m : Handler S E (Unit {0})) (k : Unit {0} → Handler S E (Unit {0})) (c d : Context S)
      → d.backend ≡ c.backend
      → Leaves m
      → ((a : Unit {0}) → Leaves (k a))
      → ((m >>= k) d).1.backend ≡ c.backend
  then-Leaves m k c d e h n = (bind-Leaves m k h n).at d ∙ e

  called-backend :
      {A : Type 0}
      → (rpc : Rpc S E A) (on_error on_timeout : List Bytes) (reply : A → Handler S E (Unit {0}))
      → ((a : A) → Leaves (reply a))
      → (c : Context S)
      → ((call rpc >>= λ o. or_return (klogs on_error) (klogs on_timeout) o >>= reply) c).1.backend
        ≡ (rpc c.backend).1
  called-backend rpc on_error on_timeout reply h c = elim (ends (rpc c.backend).0) [
    | is_done a e ↦ rw e ((h a).at _)
    | is_failed x e ↦ rw e refl
    | is_elapsed e ↦ rw e refl
  ]

  -- A command makes its call, once, and no other.
  pub command-backend :
      {A : Type 0}
      → (count count_ex : Counter) (rpc : Rpc S E A) (on_error on_timeout : List Bytes)
        (reply : A → Handler S E (Unit {0}))
      → ((a : A) → Leaves (reply a))
      → (c : Context S)
      → (command count count_ex rpc on_error on_timeout reply c).1.backend ≡ (rpc c.backend).1
  unfolding command update_method_metrics
  command-backend count count_ex rpc on_error on_timeout reply h c =
      count_error-backend count_ex _ ∙ called-backend rpc on_error on_timeout reply h _
