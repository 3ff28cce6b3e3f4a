-- ===== src/Transfer/Merged.antt =====
-- core/rpc.go, `TransferVNode`, and cluster/replication.go, `transferVNodeFrom`: one against the other,
-- with the store of the receiver behind its applier.
use nawst.Base.{
  ℕ, suc, ◌%◌, ◌^◌, ◌≡◌, ◌≢◌, ◌↔◌, refl, ap, ◌∙◌, Bool, true, Option, none, some, List, [], ◌∷◌,
  ◌++◌, Bytes, bytes_eq, bytes_eq_iff, map, ◌==◌, ◌&&◌, leb, is_some, if◌then◌else◌, arith, inl,
  inr, Bool-cases, nat_eq, Bytes-eq,
}
use nawst.Base.Map.{lookup, has, IsMap}
use nawst.Command.{Command}
use nawst.Store.{
  Store, Entry, apply, cur_meta, live_entry, live_entries, tombstone_entries, snapshot_vnode,
}
use nawst.Store.Indexes.{KeySet, keys_of, owns}
use nawst.Store.Consistent.{IsConsistent}
use nawst.Store.Register.{Register, view, merge, written, merge_all, apply_all, view-apply_all}
use nawst.Store.LastWriter.{IsWrite, merge_all-append, apply-IsWrite}
use nawst.Transfer.{
  TransferReq, TransferResp, entry_resp, command_of, received, transferred, send_entries,
  transfer_vnode, served, Failure, receive_entries, transfer_vnode_from, Link, link_error, broken,
}

-- The store of the receiver: the errors of `Apply` as numbers.
abbrev pub apply_here : Store → Command → Store × Option Failure
apply_here s c = ((apply s c).0, elim (apply s c).1 [ none ↦ none | some e ↦ some 0 ])

-- Every `Send` succeeds.
abbrev pub all_sent : ℕ → Bool
all_sent n = true

abbrev commands : ℕ → ℕ → List Entry → List Command
commands v epoch [] = []
commands v epoch (e ∷ es) = command_of (entry_resp v epoch e) ∷ commands v epoch es

command_of-IsWrite : (resp : TransferResp) → IsWrite (command_of resp)
command_of-IsWrite resp = elim (Bool-cases resp.tombstone) [
  | inl p ↦ rw p (inr refl)
  | inr p ↦ rw p (inl refl)
]

-- All that the server sends, through the loop of the receiver.
receive_entries-send_entries :
    (v epoch n : ℕ) (es : List Entry) (t : Store)
    → receive_entries apply_here t (map received (send_entries all_sent v epoch n es).0)
      ≡ (apply_all t (commands v epoch es), transferred)
unfolding receive_entries send_entries apply_all
receive_entries-send_entries v epoch n [] t = refl
receive_entries-send_entries v epoch n (e ∷ es) t =
    rw
      (apply-IsWrite t (command_of (entry_resp v epoch e))
        (command_of-IsWrite (entry_resp v epoch e)))
      (receive_entries-send_entries v epoch (suc n) es
        (apply t (command_of (entry_resp v epoch e))).0)

abbrev entry_command : ℕ → ℕ → Entry → Command
entry_command v epoch e = command_of (entry_resp v epoch e)

commands-append :
    (v epoch : ℕ) (es fs : List Entry)
    → commands v epoch (es ++ fs) ≡ commands v epoch es ++ commands v epoch fs
commands-append v epoch [] fs = refl
commands-append v epoch (e ∷ es) fs =
    ap (λ l. entry_command v epoch e ∷ l) (commands-append v epoch es fs)

if-at :
    (k j : Bytes) (f : Bytes → Register) (r : Register)
    → (if bytes_eq j k then f j else r) ≡ (if bytes_eq j k then f k else r)
if-at k j f r = elim (Bool-cases (bytes_eq j k)) [
  | inl p ↦ rw p (ap f ((bytes_eq_iff j k).0 p))
  | inr p ↦ rw p refl
]

module _ (v epoch : ℕ) (s : Store) where
  abbrev dead_command : Bytes → Command
  dead_command k =
      entry_command v epoch
        (record { key = k; value = []; version = (cur_meta s k).version; tombstone = true })

  merge_all-tombstone_entries :
      (k : Bytes) (set : KeySet) (r : Register)
      → IsMap set
      → merge_all k r (commands v epoch (tombstone_entries s set))
        ≡ (if has k set then merge r (dead_command k) else r)
  unfolding merge_all tombstone_entries lookup
  merge_all-tombstone_entries k [] r h = refl
  merge_all-tombstone_entries k ((j, b) ∷ rest) r h =
      ap (λ x. merge_all k x (commands v epoch (tombstone_entries s rest)))
        (if-at k j (λ i. merge r (dead_command i)) r)
      ∙ merge_all-tombstone_entries k rest (if bytes_eq j k then merge r (dead_command k) else r)
          h.1
      ∙ ground (arith, h.0, bytes_eq_iff j k)

  abbrev live_command : Bytes → Bytes → Command
  live_command k w = entry_command v epoch (record {
    key = k;
    value = w;
    version = (cur_meta s k).version;
    tombstone = (cur_meta s k).tombstone;
  })

  abbrev merge? : Register → Bytes → Option Bytes → Register
  merge? r k none = r
  merge? r k (some w) = merge r (live_command k w)

  -- The entry of one key of the index set.
  merge_all-live_entry :
      (k j : Bytes) (es : List Entry) (r : Register) (o : Option Bytes)
      → merge_all k r (commands v epoch (live_entry s j o ++ es))
        ≡ merge_all k (if bytes_eq j k then merge? r j o else r) (commands v epoch es)
  unfolding merge_all live_entry
  merge_all-live_entry k j es r none = ap (λ x. merge_all k x (commands v epoch es)) (ground arith)
  merge_all-live_entry k j es r (some w) = refl

  merge_all-live_entries :
      (k : Bytes) (set : KeySet) (r : Register)
      → IsMap set
      → merge_all k r (commands v epoch (live_entries s set))
        ≡ (if has k set then merge? r k (lookup k s.storage) else r)
  unfolding merge_all live_entries lookup
  merge_all-live_entries k [] r h = refl
  merge_all-live_entries k ((j, b) ∷ rest) r h =
      merge_all-live_entry k j (live_entries s rest) r (lookup j s.storage)
      ∙ ap (λ x. merge_all k x (commands v epoch (live_entries s rest)))
          (if-at k j (λ i. merge? r i (lookup i s.storage)) r)
      ∙ merge_all-live_entries k rest (if bytes_eq j k then merge? r k (lookup k s.storage) else r)
          h.1
      ∙ ground (arith, h.0, bytes_eq_iff j k)

-- The newer register of the two, `s` if they are equally old.
unfoldable pub newer : Register → Register → Register
newer s r = if leb r.version s.version then s else r

module _ (vnode_of : Bytes → ℕ) (s t : Store) (req : TransferReq)
    (h : IsConsistent vnode_of s) where
  abbrev moved : ℕ
  moved = req.vnode_id % 2 ^ 16

  abbrev snapshot_commands : List Command
  snapshot_commands = commands moved req.placement_epoch (snapshot_vnode s moved)

  merge_snapshot :
      (k : Bytes) (r : Register)
      → is_some (lookup moved s.vnode_idx.sets) ≡ true
      → (has k s.meta ≡ true → (cur_meta s k).version ≢ 0)
      → merge_all k r snapshot_commands
        ≡ (if moved == vnode_of k && has k s.meta then newer (view s k) r else r)
  unfolding snapshot_vnode newer view merge written owns cur_meta
  merge_snapshot k r present versioned = rw present (
      ap (λ cs. merge_all k r cs) (commands-append moved req.placement_epoch _ _)
      ∙ merge_all-append k r _ _
      ∙ merge_all-tombstone_entries moved req.placement_epoch s k _ _
          (h.tombstone_IsCounted.keys_IsMap moved)
      ∙ ap
          (λ x.
            if has k (keys_of s.tombstone_idx moved)
            then merge x (dead_command moved req.placement_epoch s k)
            else x)
          (merge_all-live_entries moved req.placement_epoch s k _ r
            (h.index_IsCounted.keys_IsMap moved))
      ∙ ground (arith, h.indexed moved k, h.buried moved k, h.stored k))

  -- A transfer in which nothing fails, from a store that is consistent and in which the vnode has a set
  -- of keys and the keys of the vnode have versions: the receiver reports success, and each register
  -- of the vnode is afterwards the newer one of its own and the sender's, and the sender's if they are
  -- equally old; the register of a key that the sender has not, or of another vnode, is as before.
  pub transfer_vnode_from-newer :
      (link : Link)
      → link_error link ≡ none
      → is_some (lookup moved s.vnode_idx.sets) ≡ true
      → ((k : Bytes) → has k s.meta ≡ true → (cur_meta s k).version ≢ 0)
      → (transfer_vnode_from
            (some apply_here)
            link
            t
            (map received (transfer_vnode all_sent s (some req)).0)).1
          ≡ transferred
        × ((k : Bytes)
            → view
                (transfer_vnode_from
                  (some apply_here)
                  link
                  t
                  (map received (transfer_vnode all_sent s (some req)).0)).0
                k
              ≡ (if moved == vnode_of k && has k s.meta
                  then newer (view s k) (view t k)
                  else view t k))
  unfolding transfer_vnode_from transfer_vnode
  transfer_vnode_from-newer link linked present versioned =
      rw
        (
          linked,
          transfer_vnode_from,
          receive_entries-send_entries moved req.placement_epoch 0 (snapshot_vnode s moved) t,
        )
        (
          refl,
          λ k.
              view-apply_all t snapshot_commands k
              ∙ merge_snapshot k (view t k) present (versioned k),
        )

-- Whichever `Send` of the server fails, and however the store of the receiver answers, if the stream
-- breaks after what was sent: the receiver reports success exactly if the server has sent everything.
receive_entries-served :
    (sends : ℕ → Bool) (v epoch n e : ℕ) (es : List Entry) (t : Store)
    → ((receive_entries apply_here t
          (map received (send_entries sends v epoch n es).0 ++ broken e ∷ [])).1
        ≡ transferred)
      ↔ ((send_entries sends v epoch n es).1 ≡ served)
unfolding receive_entries send_entries
receive_entries-served sends v epoch n e [] t = elim (Bool-cases (sends n)) [
  | inl p ↦ rw (p, receive_entries, send_entries) ((λ h. refl), (λ h. refl))
  | inr p ↦ rw (p, receive_entries, send_entries) ((λ h. absurd (cc)), (λ h. absurd (cc)))
]
receive_entries-served sends v epoch n e (x ∷ es) t = elim (Bool-cases (sends n)) [
  | inl p ↦
      rw
        (
          p,
          receive_entries,
          send_entries,
          apply-IsWrite t (entry_command v epoch x) (command_of-IsWrite (entry_resp v epoch x)),
        )
        (receive_entries-served sends v epoch (suc n) e es (apply t (entry_command v epoch x)).0)
  | inr p ↦ rw (p, receive_entries, send_entries) ((λ h. absurd (cc)), (λ h. absurd (cc)))
]
