-- ===== src/Reconcile/Single.antt =====
-- cluster/membership.go with cluster/replication.go: what the rounds after one notification do.
use nawst.Base.{
  ℕ, ◌-◌, ◌≤◌, ◌≡◌, refl, ap, ◌∙◌, Bool, Option, none, some, List, [], ◌∷◌, Bytes, Bytes-eq, map,
  arith,
}
use nawst.Base.Map.{lookup, lookup-insert, lookup-erase}
use nawst.Membership.{parse_meta_with_raft}
use nawst.Membership.Control.{ControlStep, start_control, control_steps}
use nawst.Membership.Control.Rounds.{steps-once}
use nawst.Reconcile.{
  Servers, Group, check_missing, check_server, check_servers, see_members, reconcile,
}
use nawst.Reconcile.Removed.{see_members-removed, see_members-dead_row}

-- What an attempt reads: the configuration, unless the node does not lead, the metadata of the members,
-- and the clock.
pub record Seen : Type 0 where
  pub servers : Option Servers
  pub metas : List Bytes
  pub now : ℕ

abbrev pub since : ℕ → Option ℕ → ℕ
since now none = 0
since now (some first) = now - first

module _ (id : Bytes) (grace : ℕ) (seen : List Bytes) (now : ℕ) (remove_fails : Bytes → Bool) where
  -- Nobody stands on the death row for any time.
  abbrev IsRecent : Group → Type 0
  IsRecent g = (a : Bytes) → since now (lookup a g.dead_row) ≡ 0

  check_server-IsRecent :
      (g : Group) (server : Bytes) (nonvoter : Bool)
      → IsRecent g
      → ((check_server id grace seen now remove_fails g server nonvoter).removed ≡ g.removed)
        × IsRecent (check_server id grace seen now remove_fails g server nonvoter)
  unfolding check_server check_missing
  check_server-IsRecent g server nonvoter h = (
    ground (arith, h server),
    λ a. ground (
      arith,
      h server,
      h a,
      lookup-insert server a now g.dead_row,
      lookup-erase server a g.dead_row,
    ),
  )

  check_servers-removed :
      (servers : Servers) (g : Group)
      → IsRecent g
      → (check_servers id grace seen now remove_fails g servers).removed ≡ g.removed
  unfolding check_servers
  check_servers-removed [] g h = refl
  check_servers-removed ((server, nonvoter) ∷ servers) g h =
      let one = check_server-IsRecent g server nonvoter h in
      check_servers-removed servers (check_server id grace seen now remove_fails g server nonvoter)
        one.1
      ∙ one.0

module _ (trim_space : Bytes → Bytes) (id : Bytes) (grace : ℕ) (remove_fails : Bytes → Bool) where
  abbrev pub attempt : Seen → Group → Group
  attempt s g = reconcile trim_space id grace remove_fails s.servers s.metas s.now g

  attempt-removed :
      (servers : Option Servers) (metas : List Bytes) (now : ℕ) (g : Group)
      → g.dead_row ≡ []
      → (reconcile trim_space id grace remove_fails servers metas now g).removed ≡ g.removed
  unfolding reconcile lookup
  attempt-removed none metas now g h = refl
  attempt-removed (some servers) metas now g h =
      let members = map (parse_meta_with_raft trim_space) metas in
      let r = see_members trim_space servers members (g, []) in
      let row = see_members-dead_row trim_space servers members (g, []) ∙ h in
      check_servers-removed id grace r.1 now remove_fails servers r.0
        (λ a. ap (λ d. since now (lookup a d)) row)
      ∙ see_members-removed trim_space servers members (g, [])

  -- A server that fails is not removed on the notification of it alone: if nobody is on the death row at
  -- first, then no run with at most one notification removes a server, however long it lasts.
  pub steps-removed :
      (g : Group) (es : List (ControlStep Seen))
      → g.dead_row ≡ []
      → (control_steps attempt (start_control g) es).notified ≤ 1
      → (control_steps attempt (start_control g) es).state.removed ≡ g.removed
  steps-removed g es h =
      steps-once attempt g (λ x. x.removed ≡ g.removed) refl
        (λ s. attempt-removed s.servers s.metas s.now g h) es
