-- ===== src/Amqp/Retry/Copies.antt =====
-- What a copy of a failed message keeps.
use nestjs_amqp.Prelude.{
  ℕ, String, Option, none, some, [], ◌∷◌, ◌==◌, if◌then◌else◌, ltb, ◌≡◌, ◌≢◌, inl, inr, refl, ◌∙◌,
  arith, eq_iff, Bool-cases,
}
use nestjs_amqp.JsMap.{JsMap, get, set}
use nestjs_amqp.JsMap.Laws.{get-set}
use nestjs_amqp.Amqp.Retry.{
  RetryPolicyConfig, Properties, Value, number, delay_of, retry_properties, headers_of, set_all,
  retry_count_header,
}

get-set_all :
    (extra m : JsMap Value) (k : String) → get extra k ≡ none → get (set_all m extra) k ≡ get m k
get-set_all [] m k h = refl
get-set_all ((j, v) ∷ extra) m k h = elim (Bool-cases (j == k)) [
  | inl same ↦ absurd (ground (arith, same))
  | inr other ↦
      get-set_all extra (set m j v) k (rw other at h) ∙ ground (arith, other, get-set m j k v)
]

-- A copy keeps every header that is not the policy's own, carries the count, keeps the reply address
-- and the correlation id, and drops the expiration where it waits.
pub retry_properties-keeps :
    (policy : RetryPolicyConfig) (p : Properties) (n : Option ℕ) (extra : JsMap Value) (k : String)
    → k ≢ retry_count_header
    → get extra k ≡ none
    → get extra retry_count_header ≡ none
    → (get (headers_of (retry_properties policy p n extra).headers) k
        ≡ get (headers_of p.headers) k)
      × (get (headers_of (retry_properties policy p n extra).headers) retry_count_header
          ≡ some (number n))
      × ((retry_properties policy p n extra).reply_to ≡ p.reply_to)
      × ((retry_properties policy p n extra).correlation_id ≡ p.correlation_id)
      × ((retry_properties policy p n extra).expiration
          ≡ (if ltb 0 (delay_of policy) then none else p.expiration))
unfolding retry_properties
retry_properties-keeps policy p n extra k other h c = (
  get-set_all extra (set (headers_of p.headers) retry_count_header (number n)) k h
      ∙ ground (
        arith,
        other,
        eq_iff retry_count_header k,
        get-set (headers_of p.headers) retry_count_header k (number n),
      ),
  get-set_all extra (set (headers_of p.headers) retry_count_header (number n)) retry_count_header c
      ∙ get-set (headers_of p.headers) retry_count_header retry_count_header (number n),
  refl,
  refl,
  refl,
)
