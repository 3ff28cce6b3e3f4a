-- ===== src/Reconcile.antt =====
-- cluster/replication.go, `ReconcileRaftWithMembership`: the servers that the leader adds to the raft
-- group and removes from it. The metadata of the members is given, and so are the configuration
-- of the group and the errors of its calls; times are nanoseconds, read once in a round. The
-- connections and the metrics of a removed server and the call of `UpdatePlacement` at the end are not
-- modelled.
pub mod Removed
pub mod Single
use nawst.Base.{
  ℕ, ◌+◌, ◌-◌, ◌*◌, Bool, true, false, not, Option, none, some, List, [], ◌∷◌, ◌++◌, Bytes,
  bytes_eq, Bytes-eq, contains, length, map, ltb, ◌==◌, ◌||◌, if◌then◌else◌,
}
use nawst.Membership.{Member, parse_meta_with_raft}
use nawst.Base.Map.{Map, lookup, insert, erase, has}

-- A server of the configuration, by whether it is a non-voter.
abbrev pub Servers : Type 0
Servers = Map Bytes Bool

-- `added` and `removed` are the calls of `AddVoter` and the successful ones of `RemoveServer`.
pub record Group : Type 0 where
  pub dead_row : Map Bytes ℕ
  pub addrs : Map Bytes Bytes
  pub added : List (Bytes × Bytes)
  pub removed : List Bytes

module _ (trim_space : Bytes → Bytes) where
  -- `setNodeRPCAddr`
  abbrev pub set_node_rpc_addr : Bytes → Bytes → Map Bytes Bytes → Map Bytes Bytes
  set_node_rpc_addr id addr addrs =
      if length (trim_space id) == 0 || length (trim_space addr) == 0
      then addrs
      else insert id addr addrs

  -- The body of the loop over the members, with `seenInGossip`.
  unfoldable pub see_member : Servers → Member → Group × List Bytes → Group × List Bytes
  see_member servers m (g, seen) = if length m.raft_addr == 0 then (g, seen) else (
    record g {
      addrs = set_node_rpc_addr m.node_id m.rpc_addr g.addrs;
      added = if has m.node_id servers then g.added else g.added ++ (m.node_id, m.raft_addr) ∷ [];
    },
    m.node_id ∷ seen,
  )

  -- A member whose metadata has no form is `none`.
  unfoldable pub see_members :
      Servers → List (Option Member) → Group × List Bytes → Group × List Bytes
  unfolding see_member
  see_members servers [] s = s
  see_members servers (none ∷ members) s = see_members servers members s
  see_members servers (some m ∷ members) s = see_members servers members (see_member servers m s)

abbrev pub minute : ℕ
minute = 60 * 1000000000

-- A non-voter has a minute; a voter the configured time, five minutes by default.
abbrev pub grace_period : ℕ → Bool → ℕ
grace_period configured true = minute
grace_period configured false = if configured == 0 then 5 * minute else configured

module _ (id : Bytes) (grace : ℕ) (seen : List Bytes) (now : ℕ) (remove_fails : Bytes → Bool) where
  -- A missing server that was seen missing first at `first`, if it was.
  unfoldable pub check_missing : Group → Bytes → Bool → Option ℕ → Group
  check_missing g server nonvoter none = record g { dead_row = insert server now g.dead_row }
  check_missing g server nonvoter (some first) =
      if not (ltb (grace_period grace nonvoter) (now - first))
      then g
      else if remove_fails server
      then g
      else record g { dead_row = erase server g.dead_row; removed = g.removed ++ server ∷ [] }

  -- The body of the loop over the servers.
  unfoldable pub check_server : Group → Bytes → Bool → Group
  unfolding check_missing
  check_server g server nonvoter =
      if bytes_eq server id
      then g
      else if contains seen server
      then record g { dead_row = erase server g.dead_row }
      else check_missing g server nonvoter (lookup server g.dead_row)

  unfoldable pub check_servers : Group → Servers → Group
  unfolding check_server
  check_servers g [] = g
  check_servers g ((server, nonvoter) ∷ servers) =
      check_servers (check_server g server nonvoter) servers

module _ (trim_space : Bytes → Bytes) (id : Bytes) (grace : ℕ) (remove_fails : Bytes → Bool) where
  -- `none` for a node that does not lead or gets no configuration.
  unfoldable pub reconcile : Option Servers → List Bytes → ℕ → Group → Group
  unfolding see_members check_servers
  reconcile none metas now g = g
  reconcile (some servers) metas now g =
      let members = map (parse_meta_with_raft trim_space) metas in
      let r = see_members trim_space servers members (g, []) in
      check_servers id grace r.1 now remove_fails r.0 servers
