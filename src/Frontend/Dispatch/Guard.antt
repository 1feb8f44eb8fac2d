-- ===== src/Frontend/Dispatch/Guard.antt =====
-- How the call of a command is observed.
use momento_proxy.Base.{List, refl, ap, sym, ◌∙◌, ◌≡◌, [], ◌∷◌, ◌++◌, append-nil, String}
use momento_proxy.Base.Exec.{Result, ok, err, panicked}
use momento_proxy.Error.{ProxyError}
use momento_proxy.Context.{Context, Handler}
use momento_proxy.Metrics.{Event, observed, latency_ok, latency_error}
use momento_proxy.Metrics.Rpc
use momento_proxy.Metrics.Rpc.{RpcCallGuard, complete, complete_ok, complete_error, drop_guard}
use momento_proxy.Frontend.Dispatch.{finish_guard, with_rpc_call_guard}

module _ {E A : Type 0} where
  -- The observation of a call that has ended in a result. A panic ends the process, and is not observed.
  abbrev pub end_of : String → Result E A → List Event
  end_of rpc (ok _) = observed rpc latency_ok ∷ []
  end_of rpc (err _) = observed rpc latency_error ∷ []
  end_of rpc panicked = []

module _ {S E : Type 0} where
  finish_guard_lem :
      (r : Result (ProxyError E) (Unit {0})) (rpc : String) (c : Context S)
      → c.recorder ≡ Rpc.new rpc
      → (finish_guard {S = S} {E = E} (r, c)).1.events ≡ c.events ++ end_of rpc r
  unfolding finish_guard complete complete_ok complete_error drop_guard Rpc.new
  finish_guard_lem (ok _) rpc c h = simp (h, append-nil)
  finish_guard_lem (err _) rpc c h = simp (h, append-nil)
  finish_guard_lem panicked rpc c h = simp append-nil

  pub finish_guard-result :
      (p : Result (ProxyError E) (Unit {0}) × Context S) → (finish_guard p).0 ≡ p.0
  unfolding finish_guard
  finish_guard-result (ok _, c) = refl
  finish_guard-result (err _, c) = refl
  finish_guard-result (panicked, c) = refl

  -- A handler that leaves the guard of its call alone is observed once if it ends, behind all that
  -- it counts and logs: in the histogram of its result.
  pub observed_once :
      (rpc : String) (m : Handler S E (Unit {0})) (c : Context S)
      → (m (record c { recorder = Rpc.new rpc })).1.recorder ≡ Rpc.new rpc
      → (with_rpc_call_guard (Rpc.new rpc) m c).1.events
        ≡ (m (record c { recorder = Rpc.new rpc })).1.events
          ++ end_of rpc (with_rpc_call_guard (Rpc.new rpc) m c).0
  unfolding with_rpc_call_guard
  observed_once rpc m c h =
      finish_guard_lem (m (record c { recorder = Rpc.new rpc })).0 rpc
        (m (record c { recorder = Rpc.new rpc })).1 h
      ∙ ap (λ r. (m (record c { recorder = Rpc.new rpc })).1.events ++ end_of rpc r)
          (sym (finish_guard-result (m (record c { recorder = Rpc.new rpc }))))
