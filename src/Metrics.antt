-- ===== src/Metrics.antt =====
-- cluster/replication.go: the metrics of the nodes that a replicator keeps, `HandleMetricsMessage` with
-- `smoothMetricsLocked`, and what placements read of them. The map of a row of `rttMatrix` is an
-- association list.
pub mod Tracked
pub mod Scores
use nawst.Base.{
  ℕ, zero, suc, ◌+◌, Bool, true, false, not, Option, none, some, List, [], ◌∷◌, ◌++◌, Bytes,
  bytes_eq, Bytes-eq, contains, length, ◌==◌, ◌||◌, ◌&&◌, if◌then◌else◌, is_some, leb,
}
use nawst.Base.Int.{ℤ, pos, negsuc}
use nawst.Base.Map.{Map, lookup, insert, erase}
use nawst.Base.Floats.{Float, Floats, literal, clamp_unit}

pub record NodeMetrics : Type 0 where
  pub node_id : Bytes
  pub avg_rtt : Float
  pub cpu_cores : ℤ
  pub mem_gb : ℤ
  pub bandwidth_mbps : ℤ
  pub disk_gb : ℤ
  pub cpu_usage : Float
  pub mem_usage : Float
  pub net_usage : Float
  pub disk_usage : Float

-- `x <= 0` of an int.
abbrev pub is_positive : ℤ → Bool
is_positive (pos n) = not (n == 0)
is_positive (negsuc n) = false

-- The metrics of a value that is kept if the new one is not positive.
abbrev pub or_previous : ℤ → ℤ → ℤ
or_previous previous x = if is_positive x then x else previous

-- The maps `metricEMA` and `rttMatrix` and the slice `metrics`.
pub record Table : Type 0 where
  pub ema : Map Bytes NodeMetrics
  pub rtt_matrix : Map Bytes (Map Bytes Float)
  pub metrics : List NodeMetrics

abbrev pub no_metrics : Table
no_metrics = record { ema = []; rtt_matrix = []; metrics = [] }

-- What the handler reads of a message.
pub record MetricsMessage : Type 0 where
  pub metrics : NodeMetrics
  pub rtt_data : Map Bytes Float

-- What changes the table: a message, which may lack its metrics, and the removal of a server.
pub data TableStep : Type 0 where
  heard : Option MetricsMessage → TableStep
  removed : Bytes → TableStep

-- `ReconcileRaftWithMembership` forgets a removed server, but not in the slice.
unfoldable pub forget : Bytes → Table → Table
forget id t = record t { ema = erase id t.ema; rtt_matrix = erase id t.rtt_matrix }

-- `maps.Copy`
unfoldable pub copy_all : Map Bytes Float → Map Bytes Float → Map Bytes Float
copy_all row [] = row
copy_all row ((k, v) ∷ more) = copy_all (insert k v row) more

abbrev pub row? : Option (Map Bytes Float) → Map Bytes Float
row? none = []
row? (some row) = row

-- The loop that replaces the metrics of a node, or appends them.
unfoldable pub replace : NodeMetrics → List NodeMetrics → List NodeMetrics
replace m [] = m ∷ []
replace m (n ∷ ns) = if bytes_eq n.node_id m.node_id then m ∷ ns else n ∷ replace m ns

-- The metrics of the nodes that are members.
unfoldable pub active_metrics : List Bytes → List NodeMetrics → List NodeMetrics
active_metrics members [] = []
active_metrics members (m ∷ ms) =
    let rest = active_metrics members ms in if contains members m.node_id then m ∷ rest else rest

module _ (fl : Floats) where
  -- `alpha*raw + (1-alpha)*prev`, with alpha = 0.25.
  abbrev pub blend : Float → Float → Float
  blend raw prev = fl.add (fl.mul (fl.decimal 25 2) raw) (fl.mul (fl.decimal 75 2) prev)

  abbrev pub clamped : NodeMetrics → NodeMetrics
  clamped raw = record raw {
    cpu_usage = clamp_unit fl raw.cpu_usage;
    mem_usage = clamp_unit fl raw.mem_usage;
    net_usage = clamp_unit fl raw.net_usage;
    disk_usage = clamp_unit fl raw.disk_usage;
  }

  abbrev pub smoothed_rtt : Float → Float → Float
  smoothed_rtt raw prev =
      if fl.lt (literal fl 0) raw
      then if fl.le prev (literal fl 0) then raw else blend raw prev
      else prev

  -- The smoothed metrics, from clamped ones and those before, if there are any.
  unfoldable pub smooth : NodeMetrics → Option NodeMetrics → NodeMetrics
  smooth raw none = raw
  smooth raw (some prev) = record {
    node_id = raw.node_id;
    avg_rtt = smoothed_rtt raw.avg_rtt prev.avg_rtt;
    cpu_cores = or_previous prev.cpu_cores raw.cpu_cores;
    mem_gb = or_previous prev.mem_gb raw.mem_gb;
    bandwidth_mbps = or_previous prev.bandwidth_mbps raw.bandwidth_mbps;
    disk_gb = or_previous prev.disk_gb raw.disk_gb;
    cpu_usage = blend raw.cpu_usage prev.cpu_usage;
    mem_usage = blend raw.mem_usage prev.mem_usage;
    net_usage = blend raw.net_usage prev.net_usage;
    disk_usage = blend raw.disk_usage prev.disk_usage;
  }

  unfoldable pub smooth_metrics : Map Bytes NodeMetrics → NodeMetrics → NodeMetrics
  unfolding smooth
  smooth_metrics ema raw = smooth (clamped raw) (lookup raw.node_id ema)

  -- A message without metrics is `none`.
  unfoldable pub handle_metrics_message : Table → Option MetricsMessage → Table
  unfolding smooth_metrics
  handle_metrics_message t none = t
  handle_metrics_message t (some msg) =
      let m = smooth_metrics t.ema msg.metrics in
      if length msg.metrics.node_id == 0 then t else record {
        ema = insert m.node_id m t.ema;
        metrics = replace m t.metrics;
        rtt_matrix =
            insert m.node_id (copy_all (row? (lookup m.node_id t.rtt_matrix)) msg.rtt_data)
              t.rtt_matrix;
      }

  unfoldable pub table_step : Table → TableStep → Table
  unfolding handle_metrics_message forget
  table_step t (heard msg) = handle_metrics_message t msg
  table_step t (removed id) = forget id t

  unfoldable pub table_steps : Table → List TableStep → Table
  table_steps t [] = t
  table_steps t (e ∷ es) = table_steps (table_step t e) es

  -- The loop of `averageRTT`: the total and the count.
  unfoldable pub sum_rtt : List NodeMetrics → Float → ℕ → Float × ℕ
  sum_rtt [] total count = (total, count)
  sum_rtt (m ∷ ms) total count =
      let seen = fl.lt (literal fl 0) m.avg_rtt in
      sum_rtt ms (if seen then fl.add total m.avg_rtt else total)
        (if seen then count + 1 else count)

  unfoldable pub average_rtt : List NodeMetrics → Float
  unfolding sum_rtt
  average_rtt ms =
      let s = sum_rtt ms (literal fl 0) 0 in
      if s.1 == 0 then literal fl 0 else fl.div s.0 (fl.of_int (pos s.1))

  abbrev pub rtt_threshold : Float → Float
  rtt_threshold average =
      let candidate = fl.mul (literal fl 2) average in
      if fl.lt (literal fl 0) average && fl.lt (literal fl 120) candidate
      then candidate
      else literal fl 120

  unfoldable pub is_severely_degraded : NodeMetrics → Float → Bool
  is_severely_degraded m average =
      if fl.le (fl.decimal 90 2) m.cpu_usage
      then true
      else if fl.le (fl.decimal 90 2) m.disk_usage
      then true
      else fl.lt (literal fl 0) m.avg_rtt && fl.le (rtt_threshold average) m.avg_rtt
