-- ===== src/Amqp/Routing/Matching.antt =====
-- The check against the matching rule of a topic exchange.
use nestjs_amqp.Prelude.{
  ℕ, suc, String, true, List, [], ◌∷◌, ◌==◌, length, split, ◌≡◌, ◌≢◌, ◌↔◌, refl, sym, arith, eq_iff,
  eq_refl, In, All, inl, inr, Bool-cases, ◌++◌, subst, any, any_witness, any_of_In, ◌∙◌, ap, nat_eq,
  if◌then◌else◌, onto_first,
}
use Prim.Native.Char.{Char, code}
use nestjs_amqp.Amqp.Routing.{
  PatternArg, absent, single, several, Scan, met_hash, mismatch, through, rest_of, scan, accepts,
  matches_pattern, matches_routing_key,
}

-- A topic exchange: `*` stands for one word, `#` for any number of words.
pub data TopicMatches : List String → List String → Type 0 where
  done : TopicMatches [] []
  word : {ps ks : List String} (w : String) → TopicMatches ps ks → TopicMatches (w ∷ ps) (w ∷ ks)
  star : {ps ks : List String} (k : String) → TopicMatches ps ks → TopicMatches ("*" ∷ ps) (k ∷ ks)
  hash_end : {ps ks : List String} → TopicMatches ps ks → TopicMatches ("#" ∷ ps) ks
  hash_more :
      {ps ks : List String} (k : String)
      → TopicMatches ("#" ∷ ps) ks
      → TopicMatches ("#" ∷ ps) (k ∷ ks)

-- The words of the pattern that the check was given.
abbrev pub patterns : PatternArg → List String
patterns absent = []
patterns (single p) = p ∷ []
patterns (several ps) = ps

scan_complete :
    (ps ks : List String) → TopicMatches ps ks → accepts (scan ps ks) (length ks) (length ps) ≡ true
unfolding scan
scan_complete ps ks done = refl
scan_complete ps ks (word w m) = ground (arith, eq_refl w, scan_complete _ _ m)
scan_complete ps ks (star k m) = ground (arith, scan_complete _ _ m)
scan_complete ps ks (hash_end m) = refl
scan_complete ps ks (hash_more k m) = refl

scan-hashless : (ps ks : List String) → All (λ p. p ≢ "#") ps → scan ps ks ≢ met_hash
unfolding scan
scan-hashless [] ks h e = cc
scan-hashless (p ∷ ps) ks (n, h) e =
    ground (arith, n, eq_iff p "#", scan-hashless ps (rest_of ks) h)

through_lengths :
    (r : Scan) (n m : ℕ) → r ≢ met_hash → accepts r (suc n) (suc m) ≡ true → accepts r n m ≡ true
through_lengths met_hash n m h e = refl
through_lengths mismatch n m h e = e
through_lengths through n m h e = ground arith

through_short : (r : Scan) (m : ℕ) → r ≢ met_hash → accepts r 0 (suc m) ≢ true
through_short met_hash m h e = h refl
through_short mismatch m h e = cc
through_short through m h e = ground arith

scan_sound :
    (ps ks : List String)
    → All (λ p. p ≢ "#") ps
    → accepts (scan ps ks) (length ks) (length ps) ≡ true
    → TopicMatches ps ks
unfolding scan
scan_sound [] [] h e = done
scan_sound [] (k ∷ ks) h e = absurd (ground arith)
scan_sound (p ∷ ps) [] (n, h) e = absurd (
    ground (arith, n, eq_iff p "#", through_short (scan ps []) (length ps) (scan-hashless ps [] h)))
scan_sound (p ∷ ps) (k ∷ ks) (n, h) e = elim (Bool-cases (p == "*")) [
  | inl any_word ↦ rw ((eq_iff p "*").0 any_word) (
      star k (
        scan_sound ps ks h (
          ground (
            arith,
            n,
            any_word,
            eq_iff p "#",
            scan-hashless ps ks h,
            through_lengths (scan ps ks) (length ks) (length ps),
          ))))
  | inr plain ↦ elim (Bool-cases (k == p)) [
    | inl same ↦ rw ((eq_iff k p).0 same) (
        word p (
          scan_sound ps ks h (
            ground (
              arith,
              n,
              plain,
              same,
              eq_iff p "#",
              scan-hashless ps ks h,
              through_lengths (scan ps ks) (length ks) (length ps),
            ))))
    | inr other ↦ absurd (ground (arith, n, eq_iff p "#"))
  ]
]

self_match : (ws : List String) → TopicMatches ws ws
self_match [] = done
self_match (w ∷ ws) = word w (self_match ws)

abbrev words : String → List String
words = split b'.'

pattern_complete :
    (key p : String) → TopicMatches (words p) (words key) → matches_pattern key p ≡ true
unfolding matches_pattern
pattern_complete key p m = ground (arith, scan_complete (words p) (words key) m)

pattern_sound :
    (key p : String)
    → All (λ w. w ≢ "#") (words p)
    → matches_pattern key p ≡ true
    → TopicMatches (words p) (words key)
unfolding matches_pattern
pattern_sound key p h e = elim (Bool-cases (key == p)) [
  | inl same ↦
      subst (λ k. TopicMatches (words p) (words k)) (sym ((eq_iff key p).0 same))
        (self_match (words p))
  | inr other ↦ scan_sound (words p) (words key) h (ground arith)
]

matches-any :
    (key : String) (arg : PatternArg)
    → matches_routing_key key arg ≡ any (matches_pattern key) (patterns arg)
unfolding matches_routing_key
matches-any key absent = refl
matches-any key (single p) = refl
matches-any key (several ps) = refl

-- No message that the exchange routes by one of the patterns is refused.
pub matches_routing_key_complete :
    (key : String) (arg : PatternArg) (p : String)
    → In p (patterns arg)
    → TopicMatches (split b'.' p) (split b'.' key)
    → matches_routing_key key arg ≡ true
matches_routing_key_complete key arg p i m =
    matches-any key arg
    ∙ any_of_In (matches_pattern key) (patterns arg) p i (pattern_complete key p m)

-- the words as a topic exchange counts them: an empty key or pattern has none
abbrev pub topic_words : String → List String
topic_words s = if s == "" then [] else split b'.' s

split-nonempty : (sep : ℕ) (s : String) → split sep s ≢ []
unfolding split
split-nonempty sep String.[] e = cc
split-nonempty sep (String.◌∷◌ c s) e = elim (Bool-cases (nat_eq (code c) sep)) [
  | inl here ↦ ground (arith, here, e)
  | inr other ↦
      onto_first-nonempty c (split sep s)
        (ap (λ b. if b then "" ∷ split sep s else onto_first c (split sep s)) (sym other) ∙ e)
]
  where
    onto_first-nonempty : (c : Char) (ws : List String) → onto_first c ws ≢ []
    onto_first-nonempty c [] e = cc
    onto_first-nonempty c (w ∷ ws) e = cc

abbrev tail : List String → List String
tail [] = []
tail (w ∷ ws) = ws

split-empty_word : (sep : ℕ) (s : String) → split sep s ≡ "" ∷ [] → s ≡ ""
unfolding split
split-empty_word sep String.[] e = refl
split-empty_word sep (String.◌∷◌ c s) e = elim (Bool-cases (nat_eq (code c) sep)) [
  | inl here ↦ absurd (
      split-nonempty sep s (
        ap tail
          (ap (λ b. if b then "" ∷ split sep s else onto_first c (split sep s)) (sym here) ∙ e)))
  | inr other ↦ absurd (
      onto_first-apart c (split sep s)
        (ap (λ b. if b then "" ∷ split sep s else onto_first c (split sep s)) (sym other) ∙ e))
]
  where
    onto_first-apart : (c : Char) (ws : List String) → onto_first c ws ≢ "" ∷ []
    onto_first-apart c [] e = cc
    onto_first-apart c (w ∷ ws) e = cc

no_words : (ps ks : List String) → TopicMatches ps ks → ps ≡ [] → ks ≡ []
no_words ps ks done e = refl
no_words ps ks (word w m) e = absurd (cc)
no_words ps ks (star k m) e = absurd (cc)
no_words ps ks (hash_end m) e = absurd (cc)
no_words ps ks (hash_more k m) e = absurd (cc)

empty_word : (ps ks : List String) → TopicMatches ps ks → ps ≡ "" ∷ [] → ks ≡ "" ∷ []
empty_word ps ks done e = absurd (cc)
empty_word ps ks (word w m) e = let none_left = no_words _ _ m (ap tail e) in cc
empty_word ps ks (star k m) e = absurd (cc)
empty_word ps ks (hash_end m) e = absurd (cc)
empty_word ps ks (hash_more k m) e = absurd (cc)

topic_words-pattern :
    (key p : String)
    → key ≢ ""
    → TopicMatches (words p) (words key) ↔ TopicMatches (topic_words p) (topic_words key)
unfolding split
topic_words-pattern key p n = elim (Bool-cases (key == "")) [
  | inl k ↦ absurd (n ((eq_iff key "").0 k))
  | inr k ↦
      (let key_words : topic_words key ≡ words key = ground (arith, k) in
        elim (Bool-cases (p == "")) [
          | inr q ↦
              (let p_words : topic_words p ≡ words p = ground (arith, q) in
                (
                  (λ m.
                      subst (λ ks. TopicMatches (topic_words p) ks) (sym key_words)
                        (subst (λ ps. TopicMatches ps (words key)) (sym p_words) m)),
                  (λ m.
                      subst (λ ks. TopicMatches (words p) ks) key_words
                        (subst (λ ps. TopicMatches ps (topic_words key)) p_words m)),
                ))
          | inl q ↦
              (let no_pattern : topic_words p ≡ [] = ground (arith, q) in
                let one_empty : words p ≡ "" ∷ [] = ap words ((eq_iff p "").0 q) in
                (
                  (λ m. absurd (
                      n (
                        split-empty_word b'.' key (empty_word (words p) (words key) m one_empty)))),
                  (λ m. absurd (
                      split-nonempty b'.' key
                        (sym key_words ∙ no_words (topic_words p) (topic_words key) m no_pattern))),
                ))
        ])
]

-- Where no pattern has a '#' among its words, the check accepts exactly the keys, other than the empty
-- one, that a topic exchange matches with one of the patterns. (The empty key has no words for an
-- exchange and one empty word for the check, which takes it for a match of "*".)
pub matches_routing_key_iff :
    (key : String) (arg : PatternArg)
    → key ≢ ""
    → ((p : String) → In p (patterns arg) → All (λ w. w ≢ "#") (split b'.' p))
    → (matches_routing_key key arg ≡ true)
      ↔ ((p : String) × In p (patterns arg) × TopicMatches (topic_words p) (topic_words key))
matches_routing_key_iff key arg n h = (
  (λ e.
      let (p, i, m) =
        any_witness (matches_pattern key) (patterns arg) (sym (matches-any key arg) ∙ e) in
      (p, i, (topic_words-pattern key p n).0 (pattern_sound key p (h p i) m))),
  (λ w. matches_routing_key_complete key arg w.0 w.1 ((topic_words-pattern key w.0 n).1 w.2)),
)

-- what stands behind a '#' is not looked at
scan-hash : (ps qs ks : List String) → scan (ps ++ "#" ∷ qs) ks ≡ scan (ps ++ "#" ∷ []) ks
unfolding scan
scan-hash [] qs ks = refl
scan-hash (p ∷ ps) qs ks = ground (arith, scan-hash ps qs (rest_of ks))

scan-hash-ne-through : (ps qs ks : List String) → scan (ps ++ "#" ∷ qs) ks ≢ through
unfolding scan
scan-hash-ne-through [] qs ks e = cc
scan-hash-ne-through (p ∷ ps) qs ks e = ground (arith, scan-hash-ne-through ps qs (rest_of ks))

any_length : (r : Scan) (n m m' : ℕ) → r ≢ through → accepts r n m ≡ true → accepts r n m' ≡ true
any_length met_hash n m m' h e = refl
any_length mismatch n m m' h e = e
any_length through n m m' h e = absurd (h refl)

-- What stands behind a '#' in a pattern is ignored: a key that matches the pattern cut off after
-- the '#' is accepted.
pub matches_routing_key_hash :
    (key p : String) (ps qs : List String)
    → split b'.' p ≡ ps ++ "#" ∷ qs
    → TopicMatches (ps ++ "#" ∷ []) (split b'.' key)
    → matches_routing_key key (single p) ≡ true
unfolding matches_routing_key
matches_routing_key_hash key p ps qs e m =
    let n = length (words key) in
    let accepted =
      any_length (scan (ps ++ "#" ∷ qs) (words key)) n (length (ps ++ "#" ∷ []))
        (length (ps ++ "#" ∷ qs)) (scan-hash-ne-through ps qs (words key))
        (rw (scan-hash ps qs (words key)) (scan_complete (ps ++ "#" ∷ []) (words key) m)) in
    let accepted' : accepts (scan (words p) (words key)) n (length (words p)) ≡ true =
      rw e accepted in
    ground (arith, accepted')
