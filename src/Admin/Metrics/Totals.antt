-- ===== src/Admin/Metrics/Totals.antt =====
-- The aggregations lose no point and count none twice.
use nestjs_amqp.Prelude.{
  ℕ, ◌+◌, ◌≤◌, String, Option, none, some, List, [], ◌∷◌, ◌≡◌, refl, ◌∙◌, if◌then◌else◌, arith,
  ◌==◌, length, All, Bool-cases, inl, inr, leb, ltb, suc, ◌&&◌,
}
use nestjs_amqp.JsMap.{JsMap, get, set}
use nestjs_amqp.JsMap.Laws.{All-get_value, All-set_value}
use nestjs_amqp.Admin.Metrics.{
  Point, StatusClass, StatusClasses, status_class, count_class, or_zero, is_error, s2xx, s3xx, s4xx,
  s5xx, Tally, no_points, tally, Group, group_for, add_point, add_points, groups_of,
  aggregate_rollups, rollup_key, positive_or,
}

abbrev pub sum {ℓ} : {A : Type ℓ} → (A → ℕ) → List A → ℕ
sum f [] = 0
sum f (x ∷ xs) = f x + sum f xs

abbrev of_found : (Group → ℕ) → Option Group → ℕ
of_found f none = 0
of_found f (some g) = f g

sum-set :
    (f : Group → ℕ) (m : JsMap Group) (k : String) (g : Group)
    → sum f (groups_of (set m k g)) + of_found f (get m k) ≡ sum f (groups_of m) + f g
sum-set f [] k g = ground arith
sum-set f ((j, h) ∷ m) k g = elim (Bool-cases (j == k)) [
  | inl e ↦ ground (arith, e)
  | inr e ↦ ground (arith, e, sum-set f m k g)
]

-- A measure of groups to which each point adds its share.
abbrev IsAdditive : (Tally → ℕ) → (Point → ℕ) → Type 0
IsAdditive f share = (f no_points ≡ 0) × ((p : Point) (t : Tally) → f (tally p t) ≡ f t + share p)

fresh-measure :
    (f : Tally → ℕ) (o : Option Group) (width : ℕ) (p : Point)
    → f no_points ≡ 0
    → f (group_for o width p).sums ≡ of_found (λ g. f g.sums) o
fresh-measure f none width p h = h
fresh-measure f (some g) width p h = refl

add_point-sum :
    (f : Tally → ℕ) (share : Point → ℕ) (key : Point → String) (width : ℕ) (p : Point)
    (m : JsMap Group)
    → IsAdditive f share
    → sum (λ g. f g.sums) (groups_of (add_point key width p m))
      ≡ sum (λ g. f g.sums) (groups_of m) + share p
add_point-sum f share key width p m (z, s) =
    let g = group_for (get m (key p)) width p in
    let a = sum-set (λ x. f x.sums) m (key p) (record g { sums = tally p g.sums }) in
    let b = fresh-measure f (get m (key p)) width p z in
    let c = s p g.sums in ground (arith, a, b, c)

add_points-sum :
    (f : Tally → ℕ) (share : Point → ℕ) (key : Point → String) (width : ℕ) (ps : List Point)
    (m : JsMap Group)
    → IsAdditive f share
    → sum (λ g. f g.sums) (groups_of (add_points key width ps m))
      ≡ sum (λ g. f g.sums) (groups_of m) + sum share ps
add_points-sum f share key width [] m a = ground arith
add_points-sum f share key width (p ∷ ps) m a =
    let h = add_points-sum f share key width ps (add_point key width p m) a in
    let k = add_point-sum f share key width p m a in ground (arith, h, k)

totals :
    (f : Tally → ℕ) (share : Point → ℕ) (key : Point → String) (width : ℕ) (ps : List Point)
    → IsAdditive f share
    → sum (λ g. f g.sums) (groups_of (add_points key width ps [])) ≡ sum share ps
totals f share key width ps a =
    let h = add_points-sum f share key width ps [] a in ground (arith, h)

-- the points that are counted in a class
abbrev pub classed : StatusClasses → ℕ
classed c = c.c2xx + c.c3xx + c.c4xx + c.c5xx

-- the points whose status is at least `low` and, where there is a bound, below `high`
abbrev pub between : ℕ → ℕ → Option ℕ → ℕ
between low high none = 0
between low high (some status) = if leb low status && ltb status high then 1 else 0

abbrev pub at_least : ℕ → Option ℕ → ℕ
at_least low none = 0
at_least low (some status) = if leb low status then 1 else 0

count-IsAdditive : IsAdditive (λ t. t.count) (λ p. 1)
unfolding tally
count-IsAdditive = (refl, λ p t. ground arith)

error_step :
    (status : Option ℕ) (n : ℕ)
    → (if leb 400 (or_zero status) then suc n else n) ≡ n + at_least 400 status
error_step none n = ground arith
error_step (some status) n = ground arith

errors-IsAdditive : IsAdditive (λ t. t.error_count) (λ p. at_least 400 p.status)
unfolding tally is_error
errors-IsAdditive = (refl, λ p t. error_step p.status t.error_count)

total-IsAdditive : IsAdditive (λ t. t.total) (λ p. or_zero p.duration_ms)
unfolding tally
total-IsAdditive = (refl, λ p t. refl)

class_step :
    (status : Option ℕ) (c : StatusClasses)
    → ((count_class (status_class status) c).c2xx ≡ c.c2xx + between 200 300 status)
      × ((count_class (status_class status) c).c3xx ≡ c.c3xx + between 300 400 status)
      × ((count_class (status_class status) c).c4xx ≡ c.c4xx + between 400 500 status)
      × ((count_class (status_class status) c).c5xx ≡ c.c5xx + at_least 500 status)
unfolding status_class
class_step none c = (ground arith, ground arith, ground arith, ground arith)
class_step (some status) c = (ground arith, ground arith, ground arith, ground arith)

classed-count :
    (s : Option StatusClass) (c : StatusClasses) → classed (count_class s c) ≤ suc (classed c)
classed-count none c = ground arith
classed-count (some s2xx) c = ground arith
classed-count (some s3xx) c = ground arith
classed-count (some s4xx) c = ground arith
classed-count (some s5xx) c = ground arith

c2xx-IsAdditive : IsAdditive (λ t. t.by_status.c2xx) (λ p. between 200 300 p.status)
unfolding tally
c2xx-IsAdditive = (refl, λ p t. (class_step p.status t.by_status).0)

c3xx-IsAdditive : IsAdditive (λ t. t.by_status.c3xx) (λ p. between 300 400 p.status)
unfolding tally
c3xx-IsAdditive = (refl, λ p t. (class_step p.status t.by_status).1)

c4xx-IsAdditive : IsAdditive (λ t. t.by_status.c4xx) (λ p. between 400 500 p.status)
unfolding tally
c4xx-IsAdditive = (refl, λ p t. (class_step p.status t.by_status).2)

c5xx-IsAdditive : IsAdditive (λ t. t.by_status.c5xx) (λ p. at_least 500 p.status)
unfolding tally
c5xx-IsAdditive = (refl, λ p t. (class_step p.status t.by_status).3)

sum-ones : (ps : List Point) → sum (λ p. 1) ps ≡ length ps
sum-ones [] = refl
sum-ones (p ∷ ps) = ground (arith, sum-ones ps)

-- Neither the errors nor the classed points exceed the points, and the extremes are in order.
abbrev pub IsTally : Tally → Type 0
IsTally t =
    (t.error_count ≤ t.count) × (classed t.by_status ≤ t.count) × (or_zero t.min ≤ or_zero t.max)

tally-IsTally : (p : Point) (t : Tally) → IsTally t → IsTally (tally p t)
unfolding tally
tally-IsTally p t (e, c, m) =
    let d = or_zero p.duration_ms in
    (
      ground (arith, e),
      ground (arith, c, classed-count (status_class p.status) t.by_status),
      ground arith,
    )

fresh-IsTally :
    (o : Option Group) (width : ℕ) (p : Point)
    → ((g : Group) → o ≡ some g → IsTally g.sums)
    → IsTally (group_for o width p).sums
fresh-IsTally none width p h = (omega arith, omega arith, omega arith)
fresh-IsTally (some g) width p h = h g refl

add_points-IsTally :
    (key : Point → String) (width : ℕ) (ps : List Point) (m : JsMap Group)
    → All (λ (e : String × Group). IsTally e.1.sums) m
    → All (λ (e : String × Group). IsTally e.1.sums) (add_points key width ps m)
add_points-IsTally key width [] m h = h
add_points-IsTally key width (p ∷ ps) m h =
    let g = group_for (get m (key p)) width p in
    let t =
      fresh-IsTally (get m (key p)) width p
        (λ g' q. All-get_value (λ (x : Group). IsTally x.sums) m (key p) g' h q) in
    add_points-IsTally key width ps (add_point key width p m) (
      All-set_value (λ (x : Group). IsTally x.sums) m (key p) (record g { sums = tally p g.sums }) h
        (tally-IsTally p g.sums t))

All-groups :
    (m : JsMap Group)
    → All (λ (e : String × Group). IsTally e.1.sums) m
    → All (λ (g : Group). IsTally g.sums) (groups_of m)
All-groups [] h = tt
All-groups (e ∷ m) (p, h) = (p, All-groups m h)

-- Whatever the points and the granularity, the counts of the rollups add up to the number of points,
-- their errors to the points with a status from 400 on, their durations to those of the points, and
-- each of their four status classes to the points with a status in its hundred, the last to those from
-- 500 on; and in each rollup the errors and the classes do not exceed the count, and the
-- least duration not the greatest.
pub aggregate_rollups-totals :
    (points : List Point) (granularity_ms : ℕ)
    → (sum (λ g. g.sums.count) (aggregate_rollups points granularity_ms) ≡ length points)
      × (sum (λ g. g.sums.error_count) (aggregate_rollups points granularity_ms)
          ≡ sum (λ p. at_least 400 p.status) points)
      × (sum (λ g. g.sums.total) (aggregate_rollups points granularity_ms)
          ≡ sum (λ p. or_zero p.duration_ms) points)
      × (sum (λ g. g.sums.by_status.c2xx) (aggregate_rollups points granularity_ms)
          ≡ sum (λ p. between 200 300 p.status) points)
      × (sum (λ g. g.sums.by_status.c3xx) (aggregate_rollups points granularity_ms)
          ≡ sum (λ p. between 300 400 p.status) points)
      × (sum (λ g. g.sums.by_status.c4xx) (aggregate_rollups points granularity_ms)
          ≡ sum (λ p. between 400 500 p.status) points)
      × (sum (λ g. g.sums.by_status.c5xx) (aggregate_rollups points granularity_ms)
          ≡ sum (λ p. at_least 500 p.status) points)
      × All (λ (g : Group). IsTally g.sums) (aggregate_rollups points granularity_ms)
unfolding aggregate_rollups
aggregate_rollups-totals points granularity_ms =
    let w = positive_or granularity_ms 3600000 in
    let key = rollup_key w in
    (
      totals (λ t. t.count) (λ p. 1) key w points count-IsAdditive ∙ sum-ones points,
      totals (λ t. t.error_count) (λ p. at_least 400 p.status) key w points errors-IsAdditive,
      totals (λ t. t.total) (λ p. or_zero p.duration_ms) key w points total-IsAdditive,
      totals (λ t. t.by_status.c2xx) (λ p. between 200 300 p.status) key w points c2xx-IsAdditive,
      totals (λ t. t.by_status.c3xx) (λ p. between 300 400 p.status) key w points c3xx-IsAdditive,
      totals (λ t. t.by_status.c4xx) (λ p. between 400 500 p.status) key w points c4xx-IsAdditive,
      totals (λ t. t.by_status.c5xx) (λ p. at_least 500 p.status) key w points c5xx-IsAdditive,
      All-groups (add_points key w points []) (add_points-IsTally key w points [] tt),
    )
