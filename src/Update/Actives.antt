-- ===== src/Update/Actives.antt =====
-- cluster/replication.go, `UpdatePlacement`: the metrics of the members, and the vnodes that a placement
-- starts from.
use nawst.Base.{
  ℕ, ◌<◌, ◌≡◌, refl, ap, ◌∙◌, false, Option, none, some, List, [], ◌∷◌, Bytes, bytes_eq_iff,
  Bytes-eq, contains, times, length, ◌==◌, if◌then◌else◌, arith, ==_iff, inl, inr, Bool-cases,
  is_some, map,
}
use nawst.Base.Map.{Map, lookup}
use nawst.Base.Floats.{Floats}
use nawst.Placement.{VNode, Placement, vnode_count, initialize_vnodes}
use nawst.Placement.Ring.{length-vnodes_from}
use nawst.Placement.Assign.{ring_of}
use nawst.Placement.Assign.Strip.{HasIds}
use nawst.Placement.Replicas.Chosen.{ids_of}
use nawst.Placement.Counts.Totals.{held}
use nawst.Metrics.{NodeMetrics, active_metrics}
use nawst.Metrics.Tracked.{find, IsNamed}
use nawst.Metrics.Scores.{Averages, score_all}
use nawst.Update.{GossipMember, prev_vnodes, vnodes_of, node_id_of, metrics_of}

find-active :
    (members : List Bytes) (ms : List NodeMetrics) (a : Bytes)
    → find a (active_metrics members ms) ≡ (if contains members a then find a ms else none)
unfolding find active_metrics
find-active members [] a = ground arith
find-active members (m ∷ ms) a = ground (arith, find-active members ms a, bytes_eq_iff m.node_id a)

pub active_metrics-IsNamed :
    (members : List Bytes) (ms : List NodeMetrics)
    → IsNamed ms
    → IsNamed (active_metrics members ms)
unfolding active_metrics
active_metrics-IsNamed members [] h = tt
active_metrics-IsNamed members (m ∷ ms) h = elim (Bool-cases (contains members m.node_id)) [
  | inl p ↦ rw p (
    h.0,
    ground (arith, h.1, find-active members ms m.node_id),
    active_metrics-IsNamed members ms h.2,
  )
  | inr p ↦ rw p (active_metrics-IsNamed members ms h.2)
]

length-active_nil : (ms : List NodeMetrics) → length (active_metrics [] ms) ≡ 0
unfolding active_metrics contains
length-active_nil [] = refl
length-active_nil (m ∷ ms) = length-active_nil ms

pub some_members_lem :
    (trim_space : Bytes → Bytes) (metrics : List NodeMetrics) (members : List GossipMember)
    → 0 < length (metrics_of trim_space members metrics)
    → (length members == 0) ≡ false
some_members_lem trim_space metrics [] l = absurd (omega (arith, l, length-active_nil metrics))
some_members_lem trim_space metrics (m ∷ members) l = ground arith

pub ids_of-score_all :
    (fl : Floats) (avg : Averages fl) (ms : List NodeMetrics)
    → ids_of (score_all fl avg ms) ≡ map node_id_of ms
unfolding score_all
ids_of-score_all fl avg [] = refl
ids_of-score_all fl avg (m ∷ ms) = ap (λ ids. m.node_id ∷ ids) (ids_of-score_all fl avg ms)

pub length-score_all :
    (fl : Floats) (avg : Averages fl) (ms : List NodeMetrics)
    → length (score_all fl avg ms) ≡ length ms
unfolding score_all
length-score_all fl avg [] = refl
length-score_all fl avg (m ∷ ms) = omega (arith, length-score_all fl avg ms)

pub not_held : (a : Bytes) (m : Map Bytes ℕ) → held a m ≡ 0 → lookup a m ≡ none
not_held a m h = ground (arith, h)

pub times-named :
    (ms : List NodeMetrics) (a : Bytes)
    → IsNamed ms
    → times a (map node_id_of ms) ≡ (if is_some (find a ms) then 1 else 0)
unfolding times find
times-named [] a h = refl
times-named (m ∷ ms) a h = ground (arith, h.1, times-named ms a h.2, bytes_eq_iff m.node_id a)

pub find-unnamed : (ms : List NodeMetrics) → IsNamed ms → find [] ms ≡ none
unfolding find
find-unnamed [] h = refl
find-unnamed (m ∷ ms) h = ground (arith, h.0, find-unnamed ms h.2, bytes_eq_iff m.node_id [])

ring_of-full : (vs : List VNode) → length vs ≡ vnode_count → ring_of vs ≡ vs
ring_of-full vs h = let p : (length vs == 0) ≡ false = ground (arith, h) in rw p refl

pub length-ring_of : (prev : Option Placement) → length (ring_of (prev_vnodes prev)) ≡ vnode_count
unfolding initialize_vnodes
length-ring_of none = length-vnodes_from vnode_count 0
length-ring_of (some p) = elim (Bool-cases (length p.vnodes == vnode_count)) [
  | inl q ↦
      let full = (==_iff (length p.vnodes) vnode_count).0 q in
      rw q (ap (λ vs. length vs) (ring_of-full p.vnodes full) ∙ full)
  | inr q ↦ rw q (length-vnodes_from vnode_count 0)
]

pub prev_vnodes-HasIds :
    (prev : Option Placement) → HasIds 0 (vnodes_of prev) → HasIds 0 (prev_vnodes prev)
prev_vnodes-HasIds none h = tt
prev_vnodes-HasIds (some p) h = elim (Bool-cases (length p.vnodes == vnode_count)) [
  | inl q ↦ rw q h
  | inr q ↦ rw q tt
]
