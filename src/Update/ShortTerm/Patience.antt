-- ===== src/Update/ShortTerm/Patience.antt =====
-- cluster/replication.go, `UpdatePlacementShortTerm`: how long a primary has been degraded before a swap.
use nawst.Base.{
  some-injective, ℕ, ◌≤◌, ◌≡◌, ◌⊎◌, refl, sym, ap, subst, Bool, true, false, not, Option, none,
  some, List, [], ◌∷◌, Bytes, Bytes-eq, times, length, ◌==◌, ◌||◌, map, arith, inl, inr, Bool-cases,
}
use nawst.Base.Map.{Map, lookup}
use nawst.Base.Floats.{Float, Floats}
use nawst.Metrics.Tracked.{IsNamed}
use nawst.Update.{GossipMember, id_or, node_id_of, metrics_of}
use nawst.Update.Actives.{times-named, active_metrics-IsNamed}
use nawst.Placement.{VNode, Placement, vnode_count}
use nawst.Metrics.{NodeMetrics, is_severely_degraded, average_rtt}
use nawst.Metrics.Scores.{calculate_scores}
use nawst.Swaps.{Health, is_set, streak?, observe_all}
use nawst.Membership.{parse_meta}
use nawst.Swaps.Members.{KeepAll, swapped_placement-KeepAll}
use nawst.Update.ShortTerm.{
  ShortInput, score_by_id, with_streak, active_in, active?, degraded_of, is_better, evaluate,
  update_short_term, short_terms,
}
use nawst.Update.ShortTerm.Streaks.{
  in_a_row, observed, nodes_of, observe_all-streak, observe_all-sustained,
}

-- Where the primary of a vnode is another one, what was seen of the old one ends with six degradations.
abbrev pub AllPatient : (Bytes → List Bool) → List VNode → List VNode → Type 0
AllPatient seen [] [] = Unit
AllPatient seen [] (w ∷ ws) = ⊥
AllPatient seen (v ∷ vs) [] = ⊥
AllPatient seen (v ∷ vs) (w ∷ ws) =
    ((w.primary ≡ v.primary) ⊎ (6 ≤ in_a_row (seen v.primary))) × AllPatient seen vs ws

KeepAll-AllPatient :
    (better : ℕ → ℕ → Bool) (scores : Map Bytes ℕ) (h : Health) (seen : Bytes → List Bool)
    (vs ws : List VNode)
    → ((a : Bytes) → is_set (lookup a h.sustained) ≡ true → 6 ≤ in_a_row (seen a))
    → KeepAll better scores h vs ws
    → AllPatient seen vs ws
KeepAll-AllPatient better scores h seen [] [] s k = tt
KeepAll-AllPatient better scores h seen [] (w ∷ ws) s k = k
KeepAll-AllPatient better scores h seen (v ∷ vs) [] s k = k
KeepAll-AllPatient better scores h seen (v ∷ vs) (w ∷ ws) s k = (
  elim k.0.reason [ inl p ↦ inl p | inr p ↦ inr (s v.primary p.1) ],
  KeepAll-AllPatient better scores h seen vs ws s k.1,
)

no_flag :
    (streak : Map Bytes ℕ) (a : Bytes) → is_set (lookup a (with_streak streak).sustained) ≡ false
unfolding lookup
no_flag streak a = refl

module _ (fl : Floats) where
  -- What an evaluation observes.
  abbrev pub round_in : Option (Placement × List NodeMetrics) → List (Bytes × Bool)
  round_in none = []
  round_in (some (prev, active)) = degraded_of fl active

  evaluate-streak :
      (streak : Map Bytes ℕ) (o : Option (Placement × List NodeMetrics)) (a : Bytes)
      (seen : List Bool)
      → streak? (lookup a streak) ≡ in_a_row seen
      → streak? (lookup a (evaluate fl streak o).0) ≡ in_a_row (observed a (round_in o) seen)
  unfolding evaluate observed
  evaluate-streak streak none a seen k = k
  evaluate-streak streak (some (prev, active)) a seen k =
      observe_all-streak (degraded_of fl active) (with_streak streak) a seen k

  nodes_of-map :
      (average : Float) (ms : List NodeMetrics)
      → nodes_of (map (λ m. (m.node_id, is_severely_degraded fl m average)) ms) ≡ map node_id_of ms
  nodes_of-map average [] = refl
  nodes_of-map average (m ∷ ms) = ap (λ ns. m.node_id ∷ ns) (nodes_of-map average ms)

  times-degraded_of :
      (active : List NodeMetrics) (a : Bytes)
      → IsNamed active
      → times a (nodes_of (degraded_of fl active)) ≤ 1
  unfolding degraded_of
  times-degraded_of active a n =
      ground (arith, nodes_of-map (average_rtt fl active) active, times-named active a n)

  evaluate-AllPatient :
      (streak : Map Bytes ℕ) (prev next : Placement) (active : List NodeMetrics)
      (seen : Bytes → List Bool)
      → ((a : Bytes) → streak? (lookup a streak) ≡ in_a_row (seen a))
      → IsNamed active
      → (evaluate fl streak (some (prev, active))).1 ≡ some next
      → AllPatient (λ a. observed a (degraded_of fl active) (seen a)) prev.vnodes next.vnodes
  unfolding evaluate
  evaluate-AllPatient streak prev next active seen k n e =
      let ms = degraded_of fl active in
      let h = observe_all (with_streak streak) ms in
      let scores = calculate_scores fl active in
      KeepAll-AllPatient (is_better fl) (score_by_id scores []) h (λ a. observed a ms (seen a))
        prev.vnodes next.vnodes
        (λ a s.
          subst (λ x. 6 ≤ x) (observe_all-streak ms (with_streak streak) a (seen a) (k a))
            (observe_all-sustained ms (with_streak streak) a (no_flag streak a)
              (times-degraded_of active a n) s))
        (swapped_placement-KeepAll (is_better fl) (score_by_id scores []) h scores prev next e).1

  module _ (trim_space : Bytes → Bytes) where
    abbrev pub round_of : ShortInput → List (Bytes × Bool)
    round_of e = round_in (active? trim_space e)

    -- What some evaluations see of a node, the newest first.
    unfoldable pub history : Bytes → List ShortInput → List Bool → List Bool
    history a [] seen = seen
    history a (e ∷ es) seen = history a es (observed a (round_of e) seen)

    short_terms-streak :
        (es : List ShortInput) (streak : Map Bytes ℕ) (a : Bytes) (seen : List Bool)
        → streak? (lookup a streak) ≡ in_a_row seen
        → streak? (lookup a (short_terms fl trim_space streak es)) ≡ in_a_row (history a es seen)
    unfolding short_terms history
    short_terms-streak [] streak a seen k = k
    short_terms-streak (e ∷ es) streak a seen k =
        short_terms-streak es (update_short_term fl trim_space streak e).0 a
          (observed a (round_of e) seen) (evaluate-streak streak (active? trim_space e) a seen k)

    active_in-AllPatient :
        (last : Option Placement) (members : Option (List GossipMember)) (leads : Bool)
        (metrics : List NodeMetrics) (streak : Map Bytes ℕ) (prev next : Placement)
        (seen : Bytes → List Bool)
        → ((a : Bytes) → streak? (lookup a streak) ≡ in_a_row (seen a))
        → IsNamed metrics
        → last ≡ some prev
        → (evaluate fl streak (active_in trim_space last members leads metrics)).1 ≡ some next
        → AllPatient
            (λ a. observed a (round_in (active_in trim_space last members leads metrics)) (seen a))
            prev.vnodes
            next.vnodes
    unfolding evaluate
    active_in-AllPatient none members leads metrics streak prev next seen k n l e = absurd (cc)
    active_in-AllPatient (some p) none leads metrics streak prev next seen k n l e = absurd (cc)
    active_in-AllPatient (some p) (some members) leads metrics streak prev next seen k n l e =
        let active = metrics_of trim_space members metrics in
        let o = active_in trim_space (some p) (some members) leads metrics in
        elim (Bool-cases (
          not leads
          || not (length p.vnodes == vnode_count)
          || length members == 0
          || length active == 0)) [
            | inl q ↦
                let skipped : o ≡ none = rw q refl in
                absurd (cc (subst (λ x. (evaluate fl streak x).1 ≡ some next) skipped e))
            | inr q ↦
                let some_active : o ≡ some (p, active) = rw q refl in
                subst (λ x. AllPatient (λ a. observed a (round_in o) (seen a)) x.vnodes next.vnodes)
                  (some-injective l)
                  (subst
                    (λ x.
                      (evaluate fl streak x).1 ≡ some next
                      → AllPatient (λ a. observed a (round_in x) (seen a)) p.vnodes next.vnodes)
                    (sym some_active)
                    (evaluate-AllPatient streak p next active seen k (
                      active_metrics-IsNamed
                        (map (λ m. id_or m.name (parse_meta trim_space m.meta)) members) metrics n))
                    e)
          ]

    -- A primary is replaced only after patience: in a run of evaluations, the last of which sees each node
    -- once, a placement that the last one proposes has another primary for a vnode only if the old one was
    -- severely degraded in at least the last six evaluations that saw it, this one included.
    pub update_short_term-AllPatient :
        (es : List ShortInput) (e : ShortInput) (prev next : Placement)
        → IsNamed e.metrics
        → e.prev ≡ some prev
        → (update_short_term fl trim_space (short_terms fl trim_space [] es) e).1 ≡ some next
        → AllPatient (λ a. observed a (round_of e) (history a es [])) prev.vnodes next.vnodes
    unfolding lookup
    update_short_term-AllPatient es e prev next n l r =
        active_in-AllPatient e.prev e.members e.leads e.metrics (short_terms fl trim_space [] es)
          prev next (λ a. history a es []) (λ a. short_terms-streak es [] a [] refl) n l r
