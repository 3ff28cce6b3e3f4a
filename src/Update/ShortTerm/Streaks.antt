-- ===== src/Update/ShortTerm/Streaks.antt =====
-- cluster/replication.go, `UpdatePlacementShortTerm`: the streak of a node is how often it was degraded
-- without a break.
use nawst.Base.{
  ℕ, ◌+◌, ◌≤◌, ◌≡◌, refl, ◌∙◌, Bool, true, false, some, List, [], ◌∷◌, Bytes, bytes_eq,
  bytes_eq_iff, Bytes-eq, times, leb, ◌&&◌, if◌then◌else◌, arith, inl, inr, Bool-cases,
}
use nawst.Base.Map.{lookup, lookup-insert}
use nawst.Swaps.{Health, is_set, streak?, observe, observe_all}

-- How often it was degraded without a break, from the newest on.
abbrev pub in_a_row : List Bool → ℕ
in_a_row [] = 0
in_a_row (false ∷ seen) = 0
in_a_row (true ∷ seen) = in_a_row seen + 1

-- What is seen of a node, the newest first.
unfoldable pub observed : Bytes → List (Bytes × Bool) → List Bool → List Bool
observed a [] seen = seen
observed a ((node, degraded) ∷ ms) seen =
    observed a ms (if bytes_eq node a then degraded ∷ seen else seen)

abbrev pub streak_of : Bytes → Health → ℕ
streak_of a h = streak? (lookup a h.streak)

in_a_row-cons :
    (d : Bool) (seen : List Bool) → in_a_row (d ∷ seen) ≡ (if d then in_a_row seen + 1 else 0)
in_a_row-cons false seen = refl
in_a_row-cons true seen = refl

-- The streak of a node once it is observed.
abbrev next_streak : Health → Bytes → Bool → ℕ
next_streak h node d = if d then streak_of node h + 1 else 0

lookup-observe :
    (h : Health) (node : Bytes) (d : Bool) (a : Bytes)
    → (lookup a (observe h node d).streak
        ≡ (if bytes_eq node a then some (next_streak h node d) else lookup a h.streak))
      × (lookup a (observe h node d).sustained ≡ (
          if bytes_eq node a && leb 6 (next_streak h node d)
          then some true
          else lookup a h.sustained))
unfolding observe
lookup-observe h node d a = (
  lookup-insert node a (next_streak h node d) h.streak,
  ground (arith, lookup-insert node a true h.sustained),
)

observe-streak :
    (h : Health) (node : Bytes) (d : Bool) (a : Bytes) (seen : List Bool)
    → streak_of a h ≡ in_a_row seen
    → streak_of a (observe h node d) ≡ in_a_row (if bytes_eq node a then d ∷ seen else seen)
observe-streak h node d a seen e =
    ground (arith, (lookup-observe h node d a).0, e, bytes_eq_iff node a, in_a_row-cons d seen)

pub observe_all-streak :
    (ms : List (Bytes × Bool)) (h : Health) (a : Bytes) (seen : List Bool)
    → streak_of a h ≡ in_a_row seen
    → streak_of a (observe_all h ms) ≡ in_a_row (observed a ms seen)
unfolding observe_all observed
observe_all-streak [] h a seen e = e
observe_all-streak ((node, d) ∷ ms) h a seen e =
    observe_all-streak ms (observe h node d) a (if bytes_eq node a then d ∷ seen else seen)
      (observe-streak h node d a seen e)

abbrev pub nodes_of : List (Bytes × Bool) → List Bytes
nodes_of [] = []
nodes_of ((node, d) ∷ ms) = node ∷ nodes_of ms

observe_all-absent :
    (ms : List (Bytes × Bool)) (h : Health) (a : Bytes)
    → times a (nodes_of ms) ≡ 0
    → (lookup a (observe_all h ms).sustained ≡ lookup a h.sustained)
      × (lookup a (observe_all h ms).streak ≡ lookup a h.streak)
unfolding observe_all times
observe_all-absent [] h a t = (refl, refl)
observe_all-absent ((node, d) ∷ ms) h a t =
    let rest = observe_all-absent ms (observe h node d) a (ground (arith, t)) in
    let step = lookup-observe h node d a in
    (rest.0 ∙ ground (arith, step.1, t), rest.1 ∙ ground (arith, step.0, t))

-- A node is in `sustainedDegraded` only with a streak of six, if it stands once among the metrics.
pub observe_all-sustained :
    (ms : List (Bytes × Bool)) (h : Health) (a : Bytes)
    → is_set (lookup a h.sustained) ≡ false
    → times a (nodes_of ms) ≤ 1
    → is_set (lookup a (observe_all h ms).sustained) ≡ true
    → 6 ≤ streak_of a (observe_all h ms)
unfolding observe_all times
observe_all-sustained [] h a f t s = absurd (cc)
observe_all-sustained ((node, d) ∷ ms) h a f t s =
    let step = lookup-observe h node d a in
    elim (Bool-cases (bytes_eq node a)) [
      | inl p ↦
          let rest = observe_all-absent ms (observe h node d) a (ground (arith, t, p)) in
          ground (arith, rest.0, rest.1, step.0, step.1, f, s, p)
      | inr p ↦
          observe_all-sustained ms (observe h node d) a (ground (arith, step.1, f, p))
            (ground (arith, t, p)) s
    ]
