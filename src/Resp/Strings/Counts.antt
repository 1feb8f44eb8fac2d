-- ===== src/Resp/Strings/Counts.antt =====
-- How GET counts its errors.
use momento_proxy.Base.{ℕ, ◌+◌, ◌≡◌, refl, ap, ◌∙◌, ◌⊎◌, inl, inr, Bytes, String, arith}
use momento_proxy.Error.{Outcome, done, Lookup, hit, miss, ends, is_done, is_failed, is_elapsed}
use momento_proxy.Client.{Floats, Client}
use momento_proxy.Metrics.{Method, ex, total, total-append, counter_number}
use momento_proxy.Context.{Context}
use momento_proxy.Resp.Utils.{update_method_metrics, count_error}
use momento_proxy.Resp.Strings.{get}

-- What a GET adds to the counter of its errors.
abbrev pub errors_counted : {E : Type 0} → Outcome E (Lookup Bytes) → ℕ
errors_counted (done _) = 0
errors_counted _ = 2

answers : (a : Lookup Bytes) → ((v : Bytes) × (a ≡ hit v)) ⊎ (a ≡ miss)
answers (hit v) = inl (v, refl)
answers miss = inr refl

module _ {F : Floats} (client : Client F) (cache_name : String) (key : Bytes) where
  -- A GET adds two to the counter of its errors when the call fails or times out, and nothing when it
  -- is answered.
  pub get_errors :
      (c : Context client.State)
      → total (ex Method.get) (get client cache_name key c).1.events
        ≡ total (ex Method.get) c.events + errors_counted (client.get cache_name key c.backend).0
  unfolding get update_method_metrics count_error counter_number
  get_errors c = elim (ends (client.get cache_name key c.backend).0) [
    | is_done a e ↦ elim (answers a) [
      | inl (v, q) ↦ rw (e ∙ ap done q, get) (simp total-append (omega arith))
      | inr q ↦ rw (e ∙ ap done q, get) (simp total-append (omega arith))
    ]
    | is_failed x e ↦ rw (e, get) (simp total-append (omega arith))
    | is_elapsed e ↦ rw (e, get) (simp total-append (omega arith))
  ]
