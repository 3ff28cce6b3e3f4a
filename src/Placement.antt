-- ===== src/Placement.antt =====
-- cluster/placement.go: the ring of vnodes and the way from a key to its vnode. The hash of a key
-- (xxhash) is a parameter; a Go index out of range is `none`.
pub mod Ring
pub mod Assign
pub mod Replicas
pub mod Counts
use nawst.Base.{
  ℕ, zero, suc, ◌+◌, ◌-◌, ◌*◌, ◌/◌, ◌%◌, ◌^◌, Bool, true, false, Option, none, some, List, [], ◌∷◌,
  Bytes, length, get_elem?, not, ◌==◌, if◌then◌else◌,
}
use nawst.Command.{u64_mod}

abbrev pub vnode_count : ℕ
vnode_count = 1024

abbrev pub max_uint64 : ℕ
max_uint64 = u64_mod - 1

abbrev pub token_bucket_size : ℕ
token_bucket_size = max_uint64 / vnode_count

pub record VNode : Type 0 where
  pub id : ℕ
  pub token : ℕ
  pub primary : Bytes
  pub replicas : List Bytes

-- `score` are the bits of the float64.
pub record NodeInfo : Type 0 where
  pub id : Bytes
  pub score : ℕ

pub record Placement : Type 0 where
  pub epoch : ℕ
  pub nodes : List NodeInfo
  pub vnodes : List VNode

-- The vnode that the loop of `InitializeVNodes` makes at index `i`.
abbrev pub vnode_at : ℕ → VNode
vnode_at i = record {
  id = i % 2 ^ 16;
  token = (i * token_bucket_size) % u64_mod;
  primary = [];
  replicas = [];
}

-- The loop, for `n` more indices from `i` on.
abbrev pub vnodes_from : ℕ → ℕ → List VNode
vnodes_from zero i = []
vnodes_from (suc n) i = vnode_at i ∷ vnodes_from n (i + 1)

unfoldable pub initialize_vnodes : List VNode
initialize_vnodes = vnodes_from vnode_count 0

-- The high word of `bits.Mul64(token, VNodeCount)`.
unfoldable pub vnode_idx : ℕ → ℕ
vnode_idx token = (token * vnode_count) / u64_mod

module _ (hash_key : Bytes → ℕ) where
  unfoldable pub get_nodes_for_key : Placement → Bytes → Option (Bytes × List Bytes)
  get_nodes_for_key p key =
      if not (length p.vnodes == vnode_count)
      then some ([], [])
      else elim (get_elem? p.vnodes (vnode_idx (hash_key key))) [
        | none ↦ none
        | some v ↦ some (v.primary, v.replicas)
      ]

  unfoldable pub get_vnode_id_for_key : Placement → Bytes → Option ℕ
  get_vnode_id_for_key p key =
      if not (length p.vnodes == vnode_count)
      then some 0
      else elim (get_elem? p.vnodes (vnode_idx (hash_key key))) [ none ↦ none | some v ↦ some v.id ]
