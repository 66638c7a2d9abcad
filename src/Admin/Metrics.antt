-- ===== src/Admin/Metrics.antt =====
-- modules/gateway-admin/util/metrics.ts: the aggregation of metric points into hourly rollups and
-- into time series. The rank of a percentile and a rounded quotient are floating-point numbers in the
-- source: `rank` and `rounded` are parameters.
pub mod Totals
use nestjs_amqp.Prelude.{
  ℕ, zero, suc, ◌+◌, ◌-◌, ◌*◌, ◌/◌, String, Bool, true, false, Option, none, some, List, [], ◌∷◌,
  ◌++◌, map, if◌then◌else◌, leb, ltb, nat_eq, template, decimal, length,
}
use nestjs_amqp.Prelude.Sort.{sort_by}
use nestjs_amqp.JsMap.{JsMap, get, set}

-- HttpMetricPoint, the fields that are aggregated
pub record Point : Type 0 where
  pub ts : ℕ
  pub method : String
  pub route : String
  pub name : Option String
  pub status : Option ℕ
  pub duration_ms : Option ℕ

-- MetricStatusClasses
pub record StatusClasses : Type 0 where
  pub c2xx : ℕ
  pub c3xx : ℕ
  pub c4xx : ℕ
  pub c5xx : ℕ

pub data StatusClass : Type 0 where
  s2xx : StatusClass
  s3xx : StatusClass
  s4xx : StatusClass
  s5xx : StatusClass

unfoldable pub status_class : Option ℕ → Option StatusClass
status_class none = none
status_class (some status) =
    if leb 500 status
    then some s5xx
    else if leb 400 status
    then some s4xx
    else if leb 300 status
    then some s3xx
    else if leb 200 status
    then some s2xx
    else none

abbrev pub empty_status_classes : StatusClasses
empty_status_classes = record { c2xx = 0; c3xx = 0; c4xx = 0; c5xx = 0 }

-- `if (sc) byStatus[sc]++`
abbrev pub count_class : Option StatusClass → StatusClasses → StatusClasses
count_class none c = c
count_class (some s2xx) c = record c { c2xx = suc c.c2xx }
count_class (some s3xx) c = record c { c3xx = suc c.c3xx }
count_class (some s4xx) c = record c { c4xx = suc c.c4xx }
count_class (some s5xx) c = record c { c5xx = suc c.c5xx }

-- `v ?? 0`
abbrev pub or_zero : Option ℕ → ℕ
or_zero none = 0
or_zero (some n) = n

unfoldable pub is_error : Point → Bool
is_error p = leb 400 (or_zero p.status)

-- `m == null ? d : Math.min(m, d)`, and with max
abbrev pub lesser : Option ℕ → ℕ → ℕ
lesser none d = d
lesser (some m) d = if leb m d then m else d

abbrev pub greater : Option ℕ → ℕ → ℕ
greater none d = d
greater (some m) d = if leb m d then d else m

-- the counters that both aggregations keep for a group of points
pub record Tally : Type 0 where
  pub count : ℕ
  pub error_count : ℕ
  pub total : ℕ
  pub min : Option ℕ
  pub max : Option ℕ
  pub by_status : StatusClasses
  pub durations : List ℕ

abbrev pub no_points : Tally
no_points = record {
  count = 0;
  error_count = 0;
  total = 0;
  min = none;
  max = none;
  by_status = empty_status_classes;
  durations = [];
}

-- the body of the loop over the points
unfoldable pub tally : Point → Tally → Tally
tally p t =
    let d = or_zero p.duration_ms in
    record {
      count = suc t.count;
      error_count = if is_error p then suc t.error_count else t.error_count;
      total = t.total + d;
      min = some (lesser t.min d);
      max = some (greater t.max d);
      by_status = count_class (status_class p.status) t.by_status;
      durations = t.durations ++ d ∷ [];
    }

-- a group with what identifies it
pub record Group : Type 0 where
  pub bucket_start : ℕ
  pub method : String
  pub route : String
  pub name : Option String
  pub sums : Tally

abbrev pub bucket_of : ℕ → Point → ℕ
bucket_of width p = p.ts / width * width

abbrev group_for : Option Group → ℕ → Point → Group
group_for (some g) width p = g
group_for none width p = record {
  bucket_start = bucket_of width p;
  method = p.method;
  route = p.route;
  name = p.name;
  sums = no_points;
}

-- one round of the loop: the group of the point's key, made if it is missing, takes the point in
abbrev pub add_point : (Point → String) → ℕ → Point → JsMap Group → JsMap Group
add_point key width p groups =
    let g = group_for (get groups (key p)) width p in
    set groups (key p) (record g { sums = tally p g.sums })

abbrev pub add_points : (Point → String) → ℕ → List Point → JsMap Group → JsMap Group
add_points key width [] groups = groups
add_points key width (p ∷ ps) groups = add_points key width ps (add_point key width p groups)

abbrev pub groups_of : JsMap Group → List Group
groups_of m = map (λ (e : String × Group). e.1) m

abbrev positive_or : ℕ → ℕ → ℕ
positive_or n d = if nat_eq n 0 then d else n

unfoldable pub rollup_key : ℕ → Point → String
rollup_key width p = template (decimal (bucket_of width p) ∷ "|" ∷ p.method ∷ "|" ∷ p.route ∷ [])

-- the rollups keep no durations
unfoldable pub aggregate_rollups : List Point → ℕ → List Group
unfolding rollup_key
aggregate_rollups points granularity_ms =
    let g = positive_or granularity_ms 3600000 in groups_of (add_points (rollup_key g) g points [])

abbrev nth : List ℕ → ℕ → Option ℕ
nth [] i = none
nth (x ∷ xs) zero = some x
nth (x ∷ xs) (suc i) = nth xs i

abbrev at_most : ℕ → ℕ → ℕ
at_most a b = if leb a b then a else b

-- `rank p n` is `Math.ceil((p / 100) * n)`
unfoldable pub percentile : (ℕ → ℕ → ℕ) → List ℕ → ℕ → Option ℕ
percentile rank sorted p = nth sorted (at_most (length sorted - 1) (rank p (length sorted) - 1))

pub record Bucket : Type 0 where
  pub bucket_start : ℕ
  pub count : ℕ
  pub error_count : ℕ
  pub total_duration_ms : ℕ
  pub avg_duration_ms : ℕ
  pub min_duration_ms : Option ℕ
  pub max_duration_ms : Option ℕ
  pub p50 : Option ℕ
  pub p95 : Option ℕ
  pub p99 : Option ℕ
  pub by_status : StatusClasses

module _ (rank rounded : ℕ → ℕ → ℕ) where
  unfoldable pub bucket : Group → Bucket
  unfolding percentile
  bucket g =
      let t = g.sums in
      let sorted = sort_by leb t.durations in
      record {
        bucket_start = g.bucket_start;
        count = t.count;
        error_count = t.error_count;
        total_duration_ms = t.total;
        avg_duration_ms = if nat_eq t.count 0 then 0 else rounded t.total t.count;
        min_duration_ms = t.min;
        max_duration_ms = t.max;
        p50 = percentile rank sorted 50;
        p95 = percentile rank sorted 95;
        p99 = percentile rank sorted 99;
        by_status = t.by_status;
      }

  abbrev pub earlier : Group → Group → Bool
  earlier a b = leb a.bucket_start b.bucket_start

  unfoldable pub build_series : List Point → ℕ → List Bucket
  unfolding bucket
  build_series points bucket_ms =
      let width = positive_or bucket_ms 60000 in
      map bucket (
        sort_by earlier (groups_of (add_points (λ p. decimal (bucket_of width p)) width points [])))
