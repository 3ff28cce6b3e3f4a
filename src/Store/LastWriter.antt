-- ===== src/Store/LastWriter.antt =====
-- core/store.go, `Apply`: the write with the highest version among the commands for a key.
use nawst.Base.{
  ℕ, ◌≡◌, ◌≢◌, refl, true, none, some, List, [], ◌∷◌, ◌++◌, arith, ◌==◌, if◌then◌else◌, Bytes,
  bytes_eq, bytes_eq_iff, inl, inr, Bool-cases, ◌≤◌, ◌<◌, All, ◌⊎◌, ◌∙◌, ap,
}
use nawst.Command.{Command, op_put, op_delete}
use nawst.Store.{Store, apply, apply_op, get_with_version, cur_meta}
use nawst.Store.Register.{
  Register, view, merge, merge_all, apply_all, view-apply_all, reply, get-view,
}

-- A command for key `k` is versioned, and older than version `v`.
abbrev pub IsOlder : Bytes → ℕ → Command → Type 0
IsOlder k v d = d.key ≡ k → (d.version ≢ 0) × (d.version < v)

merge-older :
    (r : Register) (v : ℕ) (d : Command)
    → r.version ≤ v
    → d.version ≢ 0
    → d.version < v
    → (merge r d).version ≤ v
unfolding merge
merge-older r v d h n o = ground arith

merge_all-older :
    (k : Bytes) (v : ℕ) (r : Register) (cs : List Command)
    → All (IsOlder k v) cs
    → r.version ≤ v
    → (merge_all k r cs).version ≤ v
unfolding merge_all
merge_all-older k v r [] h le = le
merge_all-older k v r (c ∷ cs) h le = elim (Bool-cases (bytes_eq c.key k)) [
  | inl p ↦
      let o = h.0 ((bytes_eq_iff c.key k).0 p) in
      rw (p, merge_all) (merge_all-older k v (merge r c) cs h.1 (merge-older r v c le o.0 o.1))
  | inr p ↦ rw (p, merge_all) (merge_all-older k v r cs h.1 le)
]

merge-stale : (r : Register) (d : Command) → d.version ≢ 0 → d.version < r.version → merge r d ≡ r
unfolding merge
merge-stale r d n o = ground arith

merge_all-stale :
    (k : Bytes) (r : Register) (cs : List Command)
    → All (IsOlder k r.version) cs
    → merge_all k r cs ≡ r
unfolding merge_all
merge_all-stale k r [] h = refl
merge_all-stale k r (c ∷ cs) h = elim (Bool-cases (bytes_eq c.key k)) [
  | inl p ↦
      let o = h.0 ((bytes_eq_iff c.key k).0 p) in
      rw p (rw (merge-stale r c o.0 o.1) (merge_all-stale k r cs h.1))
  | inr p ↦ rw p (merge_all-stale k r cs h.1)
]

pub merge_all-append :
    (k : Bytes) (r : Register) (cs ds : List Command)
    → merge_all k r (cs ++ ds) ≡ merge_all k (merge_all k r cs) ds
unfolding merge_all
merge_all-append k r [] ds = refl
merge_all-append k r (c ∷ cs) ds =
    merge_all-append k (if bytes_eq c.key k then merge r c else r) cs ds

abbrev pub IsWrite : Command → Type 0
IsWrite c = (c.op ≡ op_put) ⊎ (c.op ≡ op_delete)

-- `Apply` returns no error for a put or a delete, stale or not.
pub apply-IsWrite : (s : Store) (c : Command) → IsWrite c → (apply s c).1 ≡ none
unfolding apply apply_op
apply-IsWrite s c h = ground arith

-- What a put or a delete leaves in the register of its key.
pub left_by : Command → Register
left_by c = record { version = c.version; value = if c.op == op_put then some c.value else none }

merge-newest :
    (r : Register) (c : Command)
    → IsWrite c
    → c.version ≢ 0
    → r.version ≤ c.version
    → merge r c ≡ left_by c
unfolding merge left_by
merge-newest r c w n h = ground arith

-- If `c` is a put or delete with a version, the register of its key is not newer, and all other
-- commands for the key have lower versions, then after all commands the register is what `c` leaves.
pub last_writer_wins :
    (s : Store) (pre post : List Command) (c : Command)
    → IsWrite c
    → c.version ≢ 0
    → (cur_meta s c.key).version ≤ c.version
    → All (IsOlder c.key c.version) pre
    → All (IsOlder c.key c.version) post
    → get_with_version (apply_all s (pre ++ c ∷ post)) c.key ≡ reply (left_by c)
last_writer_wins s pre post c w n old hpre hpost =
    get-view _ c.key
    ∙ ap reply (
        view-apply_all s (pre ++ c ∷ post) c.key
        ∙ merge_all-append c.key (view s c.key) pre (c ∷ post)
        ∙ newest (merge_all c.key (view s c.key) pre)
            (merge_all-older c.key c.version (view s c.key) pre hpre (unfold view in old)))
  where
    same : bytes_eq c.key c.key ≡ true
    same = (bytes_eq_iff c.key c.key).1 refl

    newest : (r : Register) → r.version ≤ c.version → merge_all c.key r (c ∷ post) ≡ left_by c
    newest r le =
        unfold merge_all in
        rw same (
          rw (merge-newest r c w n le)
            (merge_all-stale c.key (left_by c) post (unfold left_by in hpost)))
