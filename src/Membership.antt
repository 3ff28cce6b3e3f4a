-- ===== src/Membership.antt =====
-- cluster/membership.go, `NodeMeta`, and `parseMeta` and `parseMetaWithRaft` of cluster/replication.go:
-- the metadata that a node spreads by gossip. `strings.TrimSpace` is a parameter, and the errors of the
-- two parsers are `none`.
pub mod Metadata
pub mod Control
use nawst.Base.{
  ℕ, Option, none, some, List, [], ◌∷◌, ◌++◌, Bytes, length, ◌==◌, ◌||◌, if◌then◌else◌,
}

-- The identity of a node, and what `parseMetaWithRaft` returns.
pub record Member : Type 0 where
  pub node_id : Bytes
  pub rpc_addr : Bytes
  pub raft_addr : Bytes

abbrev pub comma : ℕ
comma = 44

-- `fmt.Appendf` of the fields, separated by commas.
unfoldable pub node_meta : Member → Bytes
node_meta n =
    if length n.raft_addr == 0
    then n.node_id ++ comma ∷ n.rpc_addr
    else (n.node_id ++ comma ∷ n.rpc_addr) ++ comma ∷ n.raft_addr

abbrev pub onto_first : ℕ → List Bytes → List Bytes
onto_first x [] = (x ∷ []) ∷ []
onto_first x (p ∷ ps) = (x ∷ p) ∷ ps

-- `strings.Split(raw, ",")`
unfoldable pub split : Bytes → List Bytes
split [] = [] ∷ []
split (x ∷ xs) = let rest = split xs in if x == comma then [] ∷ rest else onto_first x rest

module _ (trim_space : Bytes → Bytes) where
  -- The third part, if there is one.
  abbrev pub raft_part : List Bytes → Bytes
  raft_part [] = []
  raft_part (p ∷ ps) = trim_space p

  abbrev pub with_fields : Bytes → Bytes → Bytes → Option Member
  with_fields id rpc raft =
      if length id == 0 || length rpc == 0
      then none
      else some (record { node_id = id; rpc_addr = rpc; raft_addr = raft })

  -- The id and the address; the third field is left empty.
  abbrev pub meta_of_parts : List Bytes → Option Member
  meta_of_parts [] = none
  meta_of_parts (p ∷ []) = none
  meta_of_parts (p ∷ q ∷ ps) = with_fields (trim_space p) (trim_space q) []

  unfoldable pub parse_meta : Bytes → Option Member
  unfolding split
  parse_meta meta =
      let raw = trim_space meta in if length raw == 0 then none else meta_of_parts (split raw)

  -- Fewer than two parts go to `parseMeta`, on the whole metadata.
  abbrev pub raft_meta_of_parts : Bytes → List Bytes → Option Member
  raft_meta_of_parts meta [] = parse_meta meta
  raft_meta_of_parts meta (p ∷ []) = parse_meta meta
  raft_meta_of_parts meta (p ∷ q ∷ ps) = with_fields (trim_space p) (trim_space q) (raft_part ps)

  unfoldable pub parse_meta_with_raft : Bytes → Option Member
  unfolding split
  parse_meta_with_raft meta =
      let raw = trim_space meta in
      if length raw == 0 then none else raft_meta_of_parts meta (split raw)
