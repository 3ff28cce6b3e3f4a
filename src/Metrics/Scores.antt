-- ===== src/Metrics/Scores.antt =====
-- cluster/score.go: `CalculateScores`. Its five sums over the metrics are one fold each.
use nawst.Base.{List, [], ◌∷◌, length}
use nawst.Base.Int.{ℤ, pos}
use nawst.Base.Floats.{Float, Floats, literal, positive_or, clamp_metric}
use nawst.Placement.{NodeInfo}
use nawst.Metrics.{NodeMetrics, or_previous}

module _ (fl : Floats) where
  -- `float64(maxInt(v, 1))`
  abbrev pub capacity : ℤ → Float
  capacity v = fl.of_int (or_previous (pos 1) v)

  unfoldable pub sum_of : (NodeMetrics → Float) → Float → List NodeMetrics → Float
  sum_of f total [] = total
  sum_of f total (m ∷ ms) = sum_of f (fl.add total (f m)) ms

  -- An average over the cluster, 1 if it is no positive number.
  unfoldable pub average_of : (NodeMetrics → Float) → List NodeMetrics → Float
  unfolding sum_of
  average_of f ms =
      positive_or fl (literal fl 1)
        (fl.div (sum_of f (literal fl 0) ms) (fl.of_int (pos (length ms))))

  pub record Averages : Type 0 where
    pub rtt : Float
    pub cpu : Float
    pub mem : Float
    pub net : Float
    pub disk : Float

  unfoldable pub averages : List NodeMetrics → Averages
  unfolding average_of
  averages ms = record {
    rtt = average_of (λ m. positive_or fl (literal fl 1) m.avg_rtt) ms;
    cpu = average_of (λ m. capacity m.cpu_cores) ms;
    mem = average_of (λ m. capacity m.mem_gb) ms;
    net = average_of (λ m. capacity m.bandwidth_mbps) ms;
    disk = average_of (λ m. capacity m.disk_gb) ms;
  }

  -- The capacity of a node against the average.
  abbrev pub relative : ℤ → Float → Float
  relative v average = positive_or fl (literal fl 1) (fl.div (capacity v) average)

  abbrev pub disk_penalty : Float → Float
  disk_penalty usage =
      fl.div (literal fl 1) (fl.sub (fl.decimal 101 2) (fl.min usage (fl.decimal 99 2)))

  -- The body of the second loop.
  unfoldable pub score_of : Averages → NodeMetrics → Float
  score_of avg m =
      let rtt = positive_or fl avg.rtt m.avg_rtt in
      let rtt_part = fl.mul (fl.decimal 31 2) (fl.div rtt (fl.add avg.rtt (fl.decimal 1 9))) in
      let cpu_part =
        fl.mul (fl.decimal 15 2)
          (fl.div (clamp_metric fl m.cpu_usage) (relative m.cpu_cores avg.cpu)) in
      let mem_part =
        fl.mul (fl.decimal 16 2)
          (fl.div (clamp_metric fl m.mem_usage) (relative m.mem_gb avg.mem)) in
      let net_part =
        fl.mul (fl.decimal 24 2)
          (fl.div (clamp_metric fl m.net_usage) (relative m.bandwidth_mbps avg.net)) in
      let disk_part =
        fl.mul (fl.decimal 14 2)
          (fl.div (disk_penalty (clamp_metric fl m.disk_usage)) (relative m.disk_gb avg.disk)) in
      fl.add (fl.add (fl.add (fl.add rtt_part cpu_part) mem_part) net_part) disk_part

  unfoldable pub score_all : Averages → List NodeMetrics → List NodeInfo
  unfolding score_of
  score_all avg [] = []
  score_all avg (m ∷ ms) = record { id = m.node_id; score = score_of avg m } ∷ score_all avg ms

  unfoldable pub calculate_scores : List NodeMetrics → List NodeInfo
  unfolding averages score_all
  calculate_scores ms = score_all (averages ms) ms
