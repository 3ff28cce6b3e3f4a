-- ===== src/Reconcile/Removed.antt =====
-- cluster/replication.go, `ReconcileRaftWithMembership`: which servers a round removes.
use nawst.Base.{
  ℕ, ◌-◌, ◌≡◌, refl, ap, Bool, false, not, Option, none, some, List, [], ◌∷◌, ◌++◌, Bytes, bytes_eq,
  bytes_eq_iff, Bytes-eq, contains, length, map, ltb, ◌==◌, ◌&&◌, ◌||◌, arith, inl, inr, Bool-cases,
  Option-cases,
}
use nawst.Base.Map.{lookup, lookup-insert, lookup-erase, IsMap}
use nawst.Membership.{Member, parse_meta_with_raft}
use nawst.Reconcile.{
  see_member, Servers, Group, grace_period, check_missing, check_server, check_servers, see_members,
  reconcile,
}

-- Has a server been missing for longer than its time?
abbrev pub is_overdue : ℕ → ℕ → Bool → Option ℕ → Bool
is_overdue grace now nonvoter none = false
is_overdue grace now nonvoter (some first) = ltb (grace_period grace nonvoter) (now - first)

contains-last :
    (xs : List Bytes) (n a : Bytes) → contains (xs ++ n ∷ []) a ≡ (contains xs a || bytes_eq n a)
unfolding contains
contains-last [] n a = ground arith
contains-last (x ∷ xs) n a = ground (arith, contains-last xs n a)

module _ (id : Bytes) (grace : ℕ) (seen : List Bytes) (now : ℕ) (remove_fails : Bytes → Bool) where
  -- What a round does to one server.
  abbrev goes : Group → Bytes → Bool → Bool
  goes g a nonvoter =
      not (bytes_eq a id)
      && not (contains seen a)
      && is_overdue grace now nonvoter (lookup a g.dead_row)
      && not (remove_fails a)

  check_server-removed :
      (g : Group) (server a : Bytes) (nonvoter : Bool)
      → contains (check_server id grace seen now remove_fails g server nonvoter).removed a
        ≡ (contains g.removed a || (bytes_eq server a && goes g server nonvoter))
  unfolding check_server check_missing
  check_server-removed g server a nonvoter = ground (arith, contains-last g.removed server a)

  check_server-dead_row :
      (g : Group) (server a : Bytes) (nonvoter : Bool)
      → bytes_eq server a ≡ false
      → lookup a (check_server id grace seen now remove_fails g server nonvoter).dead_row
        ≡ lookup a g.dead_row
  unfolding check_server check_missing
  check_server-dead_row g server a nonvoter h =
      ground (arith, h, lookup-insert server a now g.dead_row, lookup-erase server a g.dead_row)

  abbrev goes? : Group → Bytes → Option Bool → Bool
  goes? g a none = false
  goes? g a (some nonvoter) = goes g a nonvoter

  goes?_cong :
      (g g' : Group) (a : Bytes) (found : Option Bool)
      → lookup a g'.dead_row ≡ lookup a g.dead_row
      → goes? g' a found ≡ goes? g a found
  goes?_cong g g' a none p = refl
  goes?_cong g g' a (some nonvoter) p =
      ap
        (λ row.
          not (bytes_eq a id)
          && not (contains seen a)
          && is_overdue grace now nonvoter row
          && not (remove_fails a))
        p

  check_servers-removed :
      (servers : Servers) (g : Group) (a : Bytes)
      → IsMap servers
      → contains (check_servers id grace seen now remove_fails g servers).removed a
        ≡ (contains g.removed a || goes? g a (lookup a servers))
  unfolding check_servers lookup
  check_servers-removed [] g a h = ground arith
  check_servers-removed ((server, nonvoter) ∷ servers) g a h =
      let next = check_server id grace seen now remove_fails g server nonvoter in
      let ih = check_servers-removed servers next a h.1 in
      let one = check_server-removed g server a nonvoter in
      elim (Bool-cases (bytes_eq server a)) [
        | inl same ↦
            let is_a = (bytes_eq_iff server a).0 same in
            ground (
              arith,
              ih,
              one,
              same,
              is_a,
              h.0,
              ap (λ x. lookup x servers) is_a,
              ap (λ x. goes g x nonvoter) is_a,
            )
        | inr other ↦ ground (
          arith,
          ih,
          one,
          other,
          goes?_cong g next a (lookup a servers) (check_server-dead_row g server a nonvoter other),
        )
      ]

-- Does a member announce the server, with a raft address?
unfoldable pub is_announced : List (Option Member) → Bytes → Bool
is_announced [] a = false
is_announced (none ∷ members) a = is_announced members a
is_announced (some m ∷ members) a =
    not (length m.raft_addr == 0) && bytes_eq m.node_id a || is_announced members a

module _ (trim_space : Bytes → Bytes) (servers : Servers) where
  pub see_members-dead_row :
      (members : List (Option Member)) (s : Group × List Bytes)
      → (see_members trim_space servers members s).0.dead_row ≡ s.0.dead_row
  unfolding see_members see_member
  see_members-dead_row [] s = refl
  see_members-dead_row (none ∷ members) s = see_members-dead_row members s
  see_members-dead_row (some m ∷ members) s =
      ground (arith, see_members-dead_row members (see_member trim_space servers m s))

  pub see_members-removed :
      (members : List (Option Member)) (s : Group × List Bytes)
      → (see_members trim_space servers members s).0.removed ≡ s.0.removed
  unfolding see_members see_member
  see_members-removed [] s = refl
  see_members-removed (none ∷ members) s = see_members-removed members s
  see_members-removed (some m ∷ members) s =
      ground (arith, see_members-removed members (see_member trim_space servers m s))

  see_members-seen :
      (members : List (Option Member)) (s : Group × List Bytes) (a : Bytes)
      → contains (see_members trim_space servers members s).1 a
        ≡ (contains s.1 a || is_announced members a)
  unfolding see_members see_member is_announced contains
  see_members-seen [] s a = ground arith
  see_members-seen (none ∷ members) s a = see_members-seen members s a
  see_members-seen (some m ∷ members) s a =
      ground (arith, see_members-seen members (see_member trim_space servers m s) a)

-- Is a server of the configuration to go, by what the members announce and by the death row?
abbrev pub is_to_go :
    Bytes → ℕ → ℕ → (Bytes → Bool) → List (Option Member) → Group → Bytes → Option Bool → Bool
is_to_go id grace now remove_fails members g a none = false
is_to_go id grace now remove_fails members g a (some nonvoter) =
    not (bytes_eq a id)
    && not (is_announced members a)
    && is_overdue grace now nonvoter (lookup a g.dead_row)
    && not (remove_fails a)

-- A round of the leader removes exactly the servers of the configuration other than itself that no
-- member announces with a raft address, that stand on the death row for longer than their grace period,
-- and whose removal succeeds.
pub reconcile-removed :
    (trim_space : Bytes → Bytes) (id : Bytes) (grace : ℕ) (remove_fails : Bytes → Bool)
    (servers : Servers) (metas : List Bytes) (now : ℕ) (g : Group) (a : Bytes)
    → IsMap servers
    → contains (reconcile trim_space id grace remove_fails (some servers) metas now g).removed a ≡ (
        contains g.removed a
        || is_to_go id grace now remove_fails
            (map (parse_meta_with_raft trim_space) metas)
            g
            a
            (lookup a servers))
unfolding reconcile contains
reconcile-removed trim_space id grace remove_fails servers metas now g a h =
    let members = map (parse_meta_with_raft trim_space) metas in
    let r = see_members trim_space servers members (g, []) in
    elim (Option-cases (lookup a servers)) [
      | inl p ↦ ground (
        arith,
        p,
        check_servers-removed id grace r.1 now remove_fails servers r.0 a h,
        see_members-removed trim_space servers members (g, []),
      )
      | inr (nonvoter, p) ↦ ground (
        arith,
        p,
        check_servers-removed id grace r.1 now remove_fails servers r.0 a h,
        see_members-removed trim_space servers members (g, []),
        see_members-dead_row trim_space servers members (g, []),
        see_members-seen trim_space servers members (g, []) a,
      )
    ]
