-- ===== src/Broker/Decorators/Pairing.antt =====
-- Which routes the decorators protect.
use nestjs_amqp.Prelude.{Bool, true, false, some, List, ◌∷◌, ◌≡◌, In, All, ◌++◌, ◌≢◌}
use nestjs_amqp.Broker.Decorators.{AuthEntry, HttpEntry, protect}

-- The list is `before`, where nothing passes the test, then `b`, which does.
abbrev IsFirst : (AuthEntry → Bool) → List AuthEntry → AuthEntry → Type 0
IsFirst p auths b =
    (before after : List AuthEntry) × (auths ≡ before ++ b ∷ after)
    × All (λ x. p x ≡ false) before
    × (p b ≡ true)

-- A route of the method, of the name that `a` asks for, stands under the @BrokerAuth `b`, the first
-- one of that name.
abbrev pub IsProtected : AuthEntry → List HttpEntry → List AuthEntry → List HttpEntry → Type 0
IsProtected a https auths out =
    (h : HttpEntry) × (b : AuthEntry) × (before after : List AuthEntry) × In h https
    × (h.name ≡ a.http_name)
    × (auths ≡ before ++ b ∷ after)
    × (b.http_name ≡ a.http_name)
    × All (λ (x : AuthEntry). x.http_name ≢ a.http_name) before
    × In (protect (some b) h) out
