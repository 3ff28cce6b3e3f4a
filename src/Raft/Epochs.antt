-- ===== src/Raft/Epochs.antt =====
-- cluster/raft.go, `Apply`: the epoch of the placement under the entries of a log, and a replay of
-- them.
use nawst.Base.{
  ℕ, ◌≤◌, ◌≡◌, refl, sym, ap, ◌∙◌, true, Option, none, some, List, [], ◌∷◌, Bytes, leb, bytes_eq,
  if◌then◌else◌, All, arith, inl, inr, Bool-cases, Option-cases, subst,
}
use nawst.Placement.{Placement}
use nawst.Raft.{
  Json, RaftCommand, PlacementFsm, install, install_placement, apply_payload, apply_entry,
  apply_log, set_placement,
}

-- A placement of at least this epoch is there.
abbrev pub IsAt : ℕ → Option Placement → Type 0
IsAt e none = ⊥
IsAt e (some q) = e ≤ q.epoch

-- `install`, with the placement that is there as an argument.
abbrev pub installed : PlacementFsm → Placement → Option Placement → PlacementFsm
installed f p none = set_placement f p
installed f p (some q) = if leb p.epoch q.epoch then f else set_placement f p

low : (p q : Placement) → p.epoch ≤ q.epoch → leb p.epoch q.epoch ≡ true
low p q k = ground (arith, k)

abbrev pub after : PlacementFsm → Option Placement → PlacementFsm
after f none = f
after f (some p) = install f p

-- The entry brings nothing, or a placement that is not newer than the one that is there.
abbrev pub IsCovered : PlacementFsm → Option Placement → Type 0
IsCovered f none = Unit
IsCovered f (some p) = IsAt p.epoch f.placement

module _ (json : Json) where
  abbrev pub payload_of : RaftCommand → Option Placement
  payload_of c =
      if bytes_eq c.command_type install_placement then json.decode_payload c.payload else none

  -- The placement that an entry of the log brings, if it is well formed.
  abbrev pub brought : Bytes → Option Placement
  brought entry = elim (json.decode_command entry) [ none ↦ none | some c ↦ payload_of c ]

  pub apply_entry-after :
      (f : PlacementFsm) (e : Bytes) → (apply_entry json f e).0 ≡ after f (brought e)
  unfolding apply_entry apply_payload
  apply_entry-after f e = elim (Option-cases (json.decode_command e)) [
    | inl p ↦ rw (p, apply_entry, brought) refl
    | inr (c, p) ↦ elim (Bool-cases (bytes_eq c.command_type install_placement)) [
      | inl q ↦ elim (Option-cases (json.decode_payload c.payload)) [
        | inl r ↦ rw (p, q, r, apply_entry, apply_payload, brought, payload_of) refl
        | inr (x, r) ↦ rw (p, q, r, apply_entry, apply_payload, brought, payload_of) refl
      ]
      | inr q ↦ rw (p, q, apply_entry, brought, payload_of) refl
    ]
  ]

  install-IsCovered : (f : PlacementFsm) (p : Placement) → IsCovered (install f p) (some p)
  unfolding install
  install-IsCovered f p = elim (Option-cases f.placement) [
    | inl e ↦ rw e (omega arith)
    | inr (q, e) ↦ elim (Bool-cases (leb p.epoch q.epoch)) [
      | inl l ↦ rw (e, l) (ground (arith, l))
      | inr l ↦ rw (e, l) (omega arith)
    ]
  ]

  install-IsAt :
      (f : PlacementFsm) (p : Placement) (n : ℕ)
      → IsAt n f.placement
      → IsAt n (install f p).placement
  unfolding install
  install-IsAt f p n h = at f.placement h
    where
      at : (o : Option Placement) → IsAt n o → IsAt n (installed f p o).placement
      at none k = absurd k
      at (some q) k = elim (Bool-cases (leb p.epoch q.epoch)) [
        | inl l ↦ rw l h
        | inr l ↦ rw l (ground (arith, l, k))
      ]

  after-IsAt :
      (f : PlacementFsm) (o : Option Placement) (n : ℕ)
      → IsAt n f.placement
      → IsAt n (after f o).placement
  after-IsAt f none n h = h
  after-IsAt f (some p) n h = install-IsAt f p n h

  after-IsCovered : (f : PlacementFsm) (o : Option Placement) → IsCovered (after f o) o
  after-IsCovered f none = tt
  after-IsCovered f (some p) = install-IsCovered f p

  apply_log-IsAt :
      (es : List Bytes) (f : PlacementFsm) (n : ℕ)
      → IsAt n f.placement
      → IsAt n (apply_log json f es).placement
  unfolding apply_log
  apply_log-IsAt [] f n h = h
  apply_log-IsAt (e ∷ es) f n h =
      apply_log-IsAt es (apply_entry json f e).0 n
        (rw (apply_entry-after f e) (after-IsAt f (brought e) n h))

  apply_log-keeps :
      (es : List Bytes) (f : PlacementFsm) (o : Option Placement)
      → IsCovered f o
      → IsCovered (apply_log json f es) o
  apply_log-keeps es f none h = tt
  apply_log-keeps es f (some p) h = apply_log-IsAt es f p.epoch h

  -- After the entries of a log, in order, every placement that one of them brings has at most the
  -- epoch of the placement that is there.
  apply_log-IsCovered :
      (es : List Bytes) (f : PlacementFsm)
      → All (λ e. IsCovered (apply_log json f es) (brought e)) es
  unfolding apply_log
  apply_log-IsCovered [] f = tt
  apply_log-IsCovered (e ∷ es) f = (
    apply_log-keeps es (apply_entry json f e).0 (brought e) (
        subst (λ g. IsCovered g (brought e)) (sym (apply_entry-after f e))
          (after-IsCovered f (brought e))),
    apply_log-IsCovered es (apply_entry json f e).0,
  )

  install-covered : (f : PlacementFsm) (p : Placement) → IsAt p.epoch f.placement → install f p ≡ f
  unfolding install
  install-covered f p h = at f.placement h
    where
      at : (o : Option Placement) → IsAt p.epoch o → installed f p o ≡ f
      at none k = absurd k
      at (some q) k = rw (low p q k) refl

  after-covered : (f : PlacementFsm) (o : Option Placement) → IsCovered f o → after f o ≡ f
  after-covered f none h = refl
  after-covered f (some p) h = install-covered f p h

  apply_log-covered :
      (es : List Bytes) (f : PlacementFsm)
      → All (λ e. IsCovered f (brought e)) es
      → apply_log json f es ≡ f
  unfolding apply_log
  apply_log-covered [] f h = refl
  apply_log-covered (e ∷ es) f h =
      let same : (apply_entry json f e).0 ≡ f =
        apply_entry-after f e ∙ after-covered f (brought e) h.0 in
      ap (λ g. apply_log json g es) same ∙ apply_log-covered es f h.1

  -- A replay of entries that have been applied already changes nothing and calls nothing.
  apply_log-replay :
      (es : List Bytes) (f : PlacementFsm)
      → apply_log json (apply_log json f es) es ≡ apply_log json f es
  apply_log-replay es f = apply_log-covered es (apply_log json f es) (apply_log-IsCovered es f)
