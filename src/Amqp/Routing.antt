-- ===== src/Amqp/Routing.antt =====
-- matchesRoutingKey of amqp-lib/amqp/utils.ts: the check that an RPC consumer makes of the routing
-- key of a message before it runs the handler.
pub mod Matching
use nestjs_amqp.Prelude.{
  ℕ, String, Bool, true, false, ◌&&◌, ◌||◌, not, List, [], ◌∷◌, ◌==◌, if◌then◌else◌, nat_eq, length,
  split, any,
}

-- `string[] | string | undefined`
pub data PatternArg : Type 0 where
  absent : PatternArg
  single : String → PatternArg
  several : List String → PatternArg

-- what the loop over the words of a pattern comes to: it met '#', a word differed, or it ran through
pub data Scan : Type 0 where
  met_hash mismatch through : Scan

-- `splitKey[i] === w`; past the end of the key it is undefined
abbrev pub first_is : List String → String → Bool
first_is [] w = false
first_is (k ∷ ks) w = k == w

abbrev pub rest_of : List String → List String
rest_of [] = []
rest_of (k ∷ ks) = ks

unfoldable pub scan : List String → List String → Scan
scan [] key = through
scan (p ∷ ps) key =
    let rest = scan ps (rest_of key) in
    if p == "#" then met_hash else if not (p == "*") && not (first_is key p) then mismatch else rest

abbrev pub accepts : Scan → ℕ → ℕ → Bool
accepts met_hash n m = true
accepts mismatch n m = false
accepts through n m = nat_eq n m

-- one round of the loop over the patterns
unfoldable pub matches_pattern : String → String → Bool
unfolding scan split
matches_pattern routing_key p =
    let key = split b'.' routing_key in
    let words = split b'.' p in
    routing_key == p || accepts (scan words key) (length key) (length words)

unfoldable pub matches_routing_key : String → PatternArg → Bool
unfolding matches_pattern
matches_routing_key routing_key absent = false
matches_routing_key routing_key (single p) = any (matches_pattern routing_key) (p ∷ [])
matches_routing_key routing_key (several ps) = any (matches_pattern routing_key) ps
