-- ===== src/Metrics/Tracked.antt =====
-- cluster/replication.go: the slice, the map of averages and the matrix agree.
use nawst.Base.{
  true, ◌≡◌, ◌≢◌, refl, sym, ap, ◌∙◌, Option, none, some, List, [], ◌∷◌, Bytes, bytes_eq,
  bytes_eq_iff, Bytes-eq, length, ◌==◌, if◌then◌else◌, arith, inl, inr, Bool-cases,
}
use nawst.Base.Map.{Map, lookup, lookup-insert, lookup-erase, has}
use nawst.Base.Floats.{Floats}
use nawst.Metrics.{
  NodeMetrics, MetricsMessage, Table, replace, handle_metrics_message, TableStep, heard, removed,
  forget, table_step, table_steps, smooth, no_metrics, smooth_metrics, clamped, copy_all, row?,
}

-- The metrics of a node in the slice.
unfoldable pub find : Bytes → List NodeMetrics → Option NodeMetrics
find a [] = none
find a (m ∷ ms) = if bytes_eq m.node_id a then some m else find a ms

find-replace :
    (m : NodeMetrics) (ms : List NodeMetrics) (a : Bytes)
    → find a (replace m ms) ≡ (if bytes_eq m.node_id a then some m else find a ms)
unfolding find replace
find-replace m [] a = refl
find-replace m (n ∷ ns) a = ground (
  arith,
  find-replace m ns a,
  bytes_eq_iff n.node_id m.node_id,
  bytes_eq_iff n.node_id a,
  bytes_eq_iff m.node_id a,
)

-- No node stands twice, and each has a name.
abbrev pub IsNamed : List NodeMetrics → Type 0
IsNamed [] = Unit
IsNamed (m ∷ ms) = (m.node_id ≢ []) × (find m.node_id ms ≡ none) × IsNamed ms

replace-IsNamed :
    (m : NodeMetrics) (ms : List NodeMetrics) → m.node_id ≢ [] → IsNamed ms → IsNamed (replace m ms)
unfolding replace find
replace-IsNamed m [] h k = (h, refl, tt)
replace-IsNamed m (n ∷ ns) h k = elim (Bool-cases (bytes_eq n.node_id m.node_id)) [
  | inl p ↦ rw p (h, ground (arith, k.1, (bytes_eq_iff n.node_id m.node_id).0 p), k.2)
  | inr p ↦ rw p (
    k.0,
    ground (
      arith,
      p,
      k.1,
      find-replace m ns n.node_id,
      bytes_eq_iff n.node_id m.node_id,
      bytes_eq_iff m.node_id n.node_id,
    ),
    replace-IsNamed m ns h k.2,
  )
]

module _ (fl : Floats) where
  -- The slice has each node at most once and with its name, and holds every average of `metricEMA`;
  -- exactly the nodes with an average have a row in the matrix.
  pub record IsTracked (t : Table) : Type 0 where
    pub named : IsNamed t.metrics
    pub agree : (a : Bytes) → has a t.ema ≡ true → find a t.metrics ≡ lookup a t.ema
    pub rows : (a : Bytes) → has a t.rtt_matrix ≡ has a t.ema

  smooth-node_id :
      (m : NodeMetrics) (prev : Option NodeMetrics) → (smooth fl m prev).node_id ≡ m.node_id
  unfolding smooth
  smooth-node_id m none = refl
  smooth-node_id m (some p) = refl

  smooth_metrics-node_id :
      (ema : Map Bytes NodeMetrics) (m : NodeMetrics)
      → (smooth_metrics fl ema m).node_id ≡ m.node_id
  unfolding smooth_metrics
  smooth_metrics-node_id ema m = smooth-node_id (clamped fl m) (lookup m.node_id ema)

  handle_metrics_message-IsTracked :
      (t : Table) (msg : Option MetricsMessage)
      → IsTracked t
      → IsTracked (handle_metrics_message fl t msg)
  unfolding handle_metrics_message
  handle_metrics_message-IsTracked t none h = h
  handle_metrics_message-IsTracked t (some msg) h =
      let m = smooth_metrics fl t.ema msg.metrics in
      let same = smooth_metrics-node_id t.ema msg.metrics in
      elim (Bool-cases (length msg.metrics.node_id == 0)) [
        | inl p ↦ rw p h
        | inr p ↦ rw p (record {
          named =
              replace-IsNamed m t.metrics (λ e. cc (ap (λ x. length x == 0) (sym same ∙ e)))
                h.named;
          agree = λ a.
              ground
                (arith, find-replace m t.metrics a, lookup-insert m.node_id a m t.ema, h.agree a);
          rows = λ a. ground (
            arith,
            lookup-insert m.node_id a m t.ema,
            lookup-insert m.node_id a (copy_all (row? (lookup m.node_id t.rtt_matrix)) msg.rtt_data)
                t.rtt_matrix,
            h.rows a,
          );
        })
      ]

  forget-IsTracked : (id : Bytes) (t : Table) → IsTracked t → IsTracked (forget id t)
  unfolding forget
  forget-IsTracked id t h = record {
    named = h.named;
    agree = λ a p. ground (arith, lookup-erase id a t.ema, h.agree a, p);
    rows = λ a. ground (arith, lookup-erase id a t.ema, lookup-erase id a t.rtt_matrix, h.rows a);
  }

  table_steps-keep :
      (es : List TableStep) (t : Table) → IsTracked t → IsTracked (table_steps fl t es)
  unfolding table_steps table_step
  table_steps-keep [] t h = h
  table_steps-keep (heard msg ∷ es) t h =
      table_steps-keep es (handle_metrics_message fl t msg)
        (handle_metrics_message-IsTracked t msg h)
  table_steps-keep (removed id ∷ es) t h =
      table_steps-keep es (forget id t) (forget-IsTracked id t h)

  -- Whatever messages a node hears and servers it removes, `metrics` has each node at most once and with
  -- its name, it holds the average that `metricEMA` has of a node, and exactly the nodes with an average
  -- have a row in `rttMatrix`.
  pub table_steps-IsTracked : (es : List TableStep) → IsTracked (table_steps fl no_metrics es)
  unfolding find lookup
  table_steps-IsTracked es =
      table_steps-keep es no_metrics (record { named = tt; agree = λ a p. refl; rows = λ a. refl })
