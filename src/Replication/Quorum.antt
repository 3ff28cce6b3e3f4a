-- ===== src/Replication/Quorum.antt =====
-- cluster/replication.go, `ReplicateToAll`: the quorum against the number of acknowledgements.
use nawst.Base.{
  contains, times, Bytes-eq, bytes_eq, ◌&&◌, ◌||◌, not, if◌then◌else◌, ℕ, zero, suc, ◌+◌, ◌*◌, ◌/◌,
  ◌≤◌, ◌<◌, ◌≡◌, ◌≢◌, refl, Bool, true, false, Option, none, some, List, [], ◌∷◌, Bytes, length,
  ltb, leb, ◌==◌, arith, map, ◌∙◌, ap, Bool-cases, inl, inr,
}
use nawst.Placement.{Placement}
use nawst.Replication.Targets.{replicas_of, times-find_targets}
use nawst.Replication.{
  Failure, Arrival, acked, refused, cancelled, Awaited, reached, waiting, not_reached, keep_first,
  await_quorum, effective_rf, required_acks, confirmed, replicate_to, replicate_to_all,
  find_targets, first_refused, of_awaited,
}

-- The acknowledgements among the arrivals.
abbrev pub acks_in : List Arrival → ℕ
acks_in [] = 0
acks_in (acked ∷ rest) = suc (acks_in rest)
acks_in (refused e ∷ rest) = acks_in rest
acks_in (cancelled e ∷ rest) = acks_in rest

abbrev pub is_reached : Awaited → Bool
is_reached reached = true
is_reached waiting = false
is_reached (not_reached n e) = false

-- The result of a target: none is a nil error.
abbrev pub arrival_of : Option Failure → Arrival
arrival_of none = acked
arrival_of (some e) = refused e

await_quorum-enough :
    (arrivals : List Arrival) (required acks : ℕ) (first : Option Failure) (remaining : ℕ)
    → await_quorum required acks first remaining arrivals ≡ reached
    → required ≤ acks + acks_in arrivals
unfolding await_quorum
await_quorum-enough arrivals required acks first zero h = ground arith
await_quorum-enough [] required acks first (suc remaining) h = absurd (cc)
await_quorum-enough (cancelled e ∷ rest) required acks first (suc remaining) h = absurd (cc)
await_quorum-enough (acked ∷ rest) required acks first (suc remaining) h =
    ground (arith, await_quorum-enough rest required (acks + 1) first remaining)
await_quorum-enough (refused e ∷ rest) required acks first (suc remaining) h =
    ground (arith, await_quorum-enough rest required acks (keep_first first e) remaining)

acks_in-bound :
    (results : List (Option Failure)) → acks_in (map arrival_of results) ≤ length results
acks_in-bound [] = omega arith
acks_in-bound (none ∷ rest) = ground (arith, acks_in-bound rest)
acks_in-bound (some e ∷ rest) = ground (arith, acks_in-bound rest)

-- With one result from every target, in any order, the loop ends, and it ends with a quorum exactly
-- if there are enough acknowledgements among the results.
await_quorum-all :
    (results : List (Option Failure)) (required acks : ℕ) (first : Option Failure)
    → acks < required
    → (await_quorum required acks first (length results) (map arrival_of results) ≢ waiting)
      × (is_reached (await_quorum required acks first (length results) (map arrival_of results))
          ≡ leb required (acks + acks_in (map arrival_of results)))
unfolding await_quorum
await_quorum-all [] required acks first h = (ground arith, ground arith)
await_quorum-all (none ∷ rest) required acks first h = elim (Bool-cases (leb required (acks + 1))) [
  | inl p ↦ rw p (ground arith, ground arith)
  | inr p ↦ elim (Bool-cases (ltb (acks + 1 + length rest) required)) [
    | inl q ↦ rw (p, q) (ground arith, ground (arith, acks_in-bound rest))
    | inr q ↦
        let ih = await_quorum-all rest required (acks + 1) first (ground arith) in
        rw (p, q) (ih.0, ih.1 ∙ ap (λ n. leb required n) (omega arith))
  ]
]
await_quorum-all (some e ∷ rest) required acks first h =
    elim (Bool-cases (ltb (acks + length rest) required)) [
      | inl q ↦ rw q (ground arith, ground (arith, acks_in-bound rest))
      | inr q ↦
          let ih = await_quorum-all rest required acks (keep_first first e) h in rw q (ih.0, ih.1)
    ]

of_awaited-confirmed : (a : Awaited) → of_awaited a ≡ confirmed → a ≡ reached
of_awaited-confirmed reached h = refl
of_awaited-confirmed waiting h = absurd (cc)
of_awaited-confirmed (not_reached n e) h = absurd (cc)

module _ (submit_error : Bytes → Option Failure) (members rf : ℕ) (targets : List Bytes)
    (arrivals : List Arrival) (fits : rf ≤ members) where
  replicate_to-majority :
      replicate_to submit_error members (rf / 2 + 1) targets arrivals ≡ confirmed
      → rf < 2 * (1 + acks_in arrivals)
  unfolding replicate_to
  replicate_to-majority h = ground (
    arith,
    of_awaited-confirmed (
        await_quorum (rf / 2 + 1) 1 (first_refused submit_error targets) (length targets) arrivals),
    await_quorum-enough arrivals (rf / 2 + 1) 1 (first_refused submit_error targets)
        (length targets),
  )

-- A result with the target whose goroutine sent it.
abbrev pub Result : Type 0
Result = Bytes × Option Failure

abbrev pub senders : List Result → List Bytes
senders results = map (λ r. r.0) results

-- The targets whose result is nil.
abbrev pub nil_from : List Result → List Bytes
nil_from [] = []
nil_from ((target, none) ∷ results) = target ∷ nil_from results
nil_from ((target, some e) ∷ results) = nil_from results

-- The results, and then the end of the context, if it comes.
abbrev pub arrivals_of : List Result → Option Failure → List Arrival
arrivals_of [] none = []
arrivals_of [] (some e) = cancelled e ∷ []
arrivals_of ((target, result) ∷ results) ended = arrival_of result ∷ arrivals_of results ended

acks_in-arrivals_of :
    (results : List Result) (ended : Option Failure)
    → acks_in (arrivals_of results ended) ≡ length (nil_from results)
acks_in-arrivals_of [] none = refl
acks_in-arrivals_of [] (some e) = refl
acks_in-arrivals_of ((target, none) ∷ results) ended =
    omega (arith, acks_in-arrivals_of results ended)
acks_in-arrivals_of ((target, some e) ∷ results) ended = acks_in-arrivals_of results ended

times-nil_from :
    (results : List Result) (a : Bytes) → times a (nil_from results) ≤ times a (senders results)
unfolding times
times-nil_from [] a = omega arith
times-nil_from ((target, none) ∷ results) a = omega (arith, times-nil_from results a)
times-nil_from ((target, some e) ∷ results) a = ground (arith, times-nil_from results a)

replicate_to_all-enough :
    (hash_key : Bytes → ℕ) (id : Bytes) (factor : ℕ) (leads : Bool)
    (update : Option Placement → Option Placement) (submit_error : Bytes → Option Failure)
    (members : ℕ) (p : Option Placement) (key : Bytes) (arrivals : List Arrival)
    → replicate_to_all hash_key id factor leads update submit_error (some members) p key arrivals
      ≡ confirmed
    → effective_rf factor members < 2 * (1 + acks_in arrivals)
unfolding replicate_to_all
replicate_to_all-enough hash_key id factor leads update submit_error members p key arrivals h =
    elim (Bool-cases (members == 0)) [
      | inl q ↦ ground arith
      | inr q ↦ elim (Bool-cases (leb (required_acks factor members) 1)) [
        | inl r ↦ ground arith
        | inr r ↦
            replicate_to-majority submit_error members (effective_rf factor members)
              (find_targets hash_key id leads update p key) arrivals (omega arith) (cc)
      ]
    ]

-- Where each target sends at most one result, whatever arrives before the loop ends or the context does:
-- if `ReplicateToAll` confirms a write, the nodes whose result was nil are different replicas of the key,
-- in the placement or in the refreshed one, and none is this node; together with this node they are more
-- than half of the nodes that the replication factor asks for, or of all members if these are fewer.
pub replicate_to_all-majority :
    (hash_key : Bytes → ℕ) (id : Bytes) (factor : ℕ) (leads : Bool)
    (update : Option Placement → Option Placement) (submit_error : Bytes → Option Failure)
    (members : ℕ) (p : Option Placement) (key : Bytes) (results : List Result)
    (ended : Option Failure)
    → ((a : Bytes)
        → times a (senders results) ≤ times a (find_targets hash_key id leads update p key))
    → replicate_to_all hash_key id factor leads update submit_error
        (some members)
        p
        key
        (arrivals_of results ended)
      ≡ confirmed
    → ((a : Bytes)
        → times a (nil_from results) ≤ (
            if (contains (replicas_of hash_key p key) a
                || contains (replicas_of hash_key (update p) key) a)
              && not (bytes_eq a id)
            then 1
            else 0))
      × (effective_rf factor members < 2 * (1 + length (nil_from results)))
replicate_to_all-majority hash_key id factor leads update submit_error members p key results ended
      own h =
    (
      λ a. omega (
        arith,
        times-nil_from results a,
        own a,
        times-find_targets hash_key id leads update p key a,
      ),
      omega (
        arith,
        replicate_to_all-enough hash_key id factor leads update submit_error members p key
            (arrivals_of results ended) h,
        acks_in-arrivals_of results ended,
      ),
    )
