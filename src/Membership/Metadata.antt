-- ===== src/Membership/Metadata.antt =====
-- cluster/membership.go and cluster/replication.go: the metadata of a node is read as it was written.
use nawst.Base.{
  ◌≡◌, ◌≢◌, ◌⊎◌, refl, ap, ◌∙◌, false, some, [], ◌∷◌, ◌++◌, Bytes, All, length, ◌==◌, arith, inl,
  inr,
}
use nawst.Membership.{comma, node_meta, split, parse_meta_with_raft, with_fields}
use mathlib.Core.List.{append_assoc}

abbrev pub HasNoComma : Bytes → Type 0
HasNoComma a = All (λ x. x ≢ comma) a

split-whole : (a : Bytes) → HasNoComma a → split a ≡ a ∷ []
unfolding split
split-whole [] h = refl
split-whole (x ∷ a) h = ground (arith, h.0, split-whole a h.1)

split-append : (a c : Bytes) → HasNoComma a → split (a ++ comma ∷ c) ≡ a ∷ split c
unfolding split
split-append [] c h = refl
split-append (x ∷ a) c h = ground (arith, h.0, split-append a c h.1)

-- A field of the metadata: trimmed, without a comma and not empty.
abbrev pub IsField : (Bytes → Bytes) → Bytes → Type 0
IsField trim_space a = (trim_space a ≡ a) × (a ≢ []) × HasNoComma a

-- The document of `TrimSpace` says that it takes away only what is at the ends: two trimmed strings with
-- a comma between them are trimmed.
abbrev pub KeepsJoined : (Bytes → Bytes) → Type 0
KeepsJoined trim_space =
    (a c : Bytes)
    → trim_space a ≡ a
    → trim_space c ≡ c
    → a ≢ []
    → c ≢ []
    → trim_space (a ++ comma ∷ c) ≡ a ++ comma ∷ c

joined-ne : (a c : Bytes) → a ++ comma ∷ c ≢ []
joined-ne [] c h = cc
joined-ne (x ∷ a) c h = cc

length-joined : (a c : Bytes) → (length (a ++ comma ∷ c) == 0) ≡ false
length-joined [] c = ground arith
length-joined (x ∷ a) c = ground arith

length-ne : (a : Bytes) → a ≢ [] → (length a == 0) ≡ false
length-ne [] h = absurd (h refl)
length-ne (x ∷ a) h = ground arith

module _ (trim_space : Bytes → Bytes) (keeps : KeepsJoined trim_space) where
  with_fields_lem :
      (id rpc raft : Bytes)
      → IsField trim_space id
      → IsField trim_space rpc
      → with_fields trim_space (trim_space id) (trim_space rpc) raft
        ≡ some (record { node_id = id; rpc_addr = rpc; raft_addr = raft })
  with_fields_lem id rpc raft i r =
      let i0 = i.0 in
      let r0 = r.0 in
      let ie = length-ne id i.1 in let re = length-ne rpc r.1 in rw (i0, r0, ie, re) refl

  two_parts :
      (id rpc : Bytes)
      → IsField trim_space id
      → IsField trim_space rpc
      → split (id ++ comma ∷ rpc) ≡ id ∷ rpc ∷ []
  two_parts id rpc i r = split-append id rpc i.2 ∙ ap (λ ps. id ∷ ps) (split-whole rpc r.2)

  three_parts :
      (id rpc raft : Bytes)
      → IsField trim_space id
      → IsField trim_space rpc
      → IsField trim_space raft
      → split ((id ++ comma ∷ rpc) ++ comma ∷ raft) ≡ id ∷ rpc ∷ raft ∷ []
  three_parts id rpc raft i r t =
      ap split (append_assoc id (comma ∷ rpc) (comma ∷ raft))
      ∙ split-append id (rpc ++ comma ∷ raft) i.2
      ∙ ap (λ ps. id ∷ ps) (split-append rpc raft r.2 ∙ ap (λ ps. rpc ∷ ps) (split-whole raft t.2))

  -- `parseMetaWithRaft` reads the metadata of a node as it was written, if its fields are trimmed, hold no
  -- comma and are not empty.
  pub parse_meta_with_raft-node_meta :
      (id rpc raft : Bytes)
      → IsField trim_space id
      → IsField trim_space rpc
      → (raft ≡ []) ⊎ IsField trim_space raft
      → parse_meta_with_raft trim_space
          (node_meta (record { node_id = id; rpc_addr = rpc; raft_addr = raft }))
        ≡ some (record { node_id = id; rpc_addr = rpc; raft_addr = raft })
  unfolding parse_meta_with_raft node_meta
  parse_meta_with_raft-node_meta id rpc [] i r t =
      let raw = keeps id rpc i.0 r.0 i.1 r.1 in
      let full = length-joined id rpc in
      let parts = two_parts id rpc i r in rw (raw, full, parts) (with_fields_lem id rpc [] i r)
  parse_meta_with_raft-node_meta id rpc (x ∷ raft) i r (inl e) = absurd (cc)
  parse_meta_with_raft-node_meta id rpc (x ∷ raft) i r (inr t) =
      let two = keeps id rpc i.0 r.0 i.1 r.1 in
      let raw = keeps (id ++ comma ∷ rpc) (x ∷ raft) two t.0 (joined-ne id rpc) t.1 in
      let full = length-joined (id ++ comma ∷ rpc) (x ∷ raft) in
      let parts = three_parts id rpc (x ∷ raft) i r t in
      let last = t.0 in
      let nonempty = length-ne (x ∷ raft) t.1 in
      rw (nonempty, raw, full, parts, last) (with_fields_lem id rpc (x ∷ raft) i r)
