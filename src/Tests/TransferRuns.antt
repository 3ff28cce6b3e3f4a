-- ===== src/Tests/TransferRuns.antt =====
-- The transfer of a vnode between two stores.
use nawst.Base.{
  ℕ, ◌≡◌, ◌≢◌, refl, Bool, true, false, none, some, [], ◌∷◌, arith, map, Bytes, bytes_eq, Bytes-eq,
  nat_eq, ◌==◌, ltb, ◌&&◌, List, if◌then◌else◌, is_some,
}
use nawst.Base.Map.{lookup, insert, has}
use nawst.Store.{new_store, apply, cur_meta, apply_op, apply_put, Entry}
use nawst.Store.Register.{view, apply_all}
use nawst.Store.Indexes.{register, deregister, keys_of}
use nawst.Transfer.{TransferReq, Link, transfer_vnode, transfer_vnode_from, transferred, received}
use nawst.Transfer.Merged.{apply_here, all_sent, newer, transfer_vnode_from-newer}
use nawst.Tests.StoreRuns.{two_keys, vnode_of, key_a, key_b, two_keys-IsConsistent}

abbrev request : TransferReq
request = record { vnode_id = 7; placement_epoch = 1 }

abbrev good_link : Link
good_link = record { client_error = none; stream_error = none; send_error = none }

seven_there : is_some (lookup 7 two_keys.vnode_idx.sets) ≡ true
unfolding apply_all apply apply_op apply_put cur_meta lookup insert register deregister keys_of
    bytes_eq
seven_there = refl

two_keys-versioned : (k : Bytes) → has k two_keys.meta ≡ true → (cur_meta two_keys k).version ≢ 0
unfolding apply_all apply apply_op apply_put cur_meta lookup insert register deregister keys_of
    bytes_eq
two_keys-versioned k h = ground arith

transfer_vnode_from-newer_example :
    (transfer_vnode_from
        (some apply_here)
        good_link
        new_store
        (map received (transfer_vnode all_sent two_keys (some request)).0)).1
      ≡ transferred
    × ((k : Bytes)
        → view
            (transfer_vnode_from
              (some apply_here)
              good_link
              new_store
              (map received (transfer_vnode all_sent two_keys (some request)).0)).0
            k
          ≡ (if (7 == vnode_of k) && has k two_keys.meta
              then newer (view two_keys k) (view new_store k)
              else view new_store k))
transfer_vnode_from-newer_example =
    transfer_vnode_from-newer vnode_of two_keys new_store request two_keys-IsConsistent good_link
      refl seven_there two_keys-versioned

-- The second `Send` fails.
abbrev one_sent : ℕ → Bool
one_sent n = ltb n 1

abbrev entries : List Entry
entries =
    record { key = key_a; value = 1 ∷ []; version = 3; tombstone = false }
    ∷ record { key = key_b; value = []; version = 4; tombstone = true }
    ∷ []
