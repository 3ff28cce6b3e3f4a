-- ===== src/Clients/Accounts.antt =====
-- cluster/replication.go: no connection is lost, and none that is in use is closed.
use nawst.Base.{
  ℕ, zero, suc, ◌+◌, ◌≡◌, refl, Bool, true, false, Option, none, some, List, [], ◌∷◌, ◌++◌, Bytes,
  Bytes-eq, ltb, ◌==◌, if◌then◌else◌, arith, inl, inr, Option-cases,
}
use nawst.Base.Map.{Map, lookup, total, total-insert, total-erase, IsMap, IsMap-insert, IsMap-erase}
use nawst.Clients.{
  Pool, no_peers, PoolStep, dial, save, drop, close_all, take_dialing, values, dial_in, save_in,
  save_at, drop_in, pool_step, pool_steps,
}

abbrev pub is_conn : ℕ → Bytes → ℕ → ℕ
is_conn i node c = if c == i then 1 else 0

-- How often a connection is among some.
unfoldable pub count_conn : ℕ → List ℕ → ℕ
count_conn i [] = 0
count_conn i (c ∷ cs) = (if c == i then 1 else 0) + count_conn i cs

unfoldable pub count_dialing : ℕ → List (Bytes × ℕ) → ℕ
count_dialing i [] = 0
count_dialing i ((node, c) ∷ cs) = (if c == i then 1 else 0) + count_dialing i cs

count_dialing-append :
    (i : ℕ) (xs ys : List (Bytes × ℕ))
    → count_dialing i (xs ++ ys) ≡ count_dialing i xs + count_dialing i ys
unfolding count_dialing
count_dialing-append i [] ys = omega arith
count_dialing-append i ((node, c) ∷ xs) ys = omega (arith, count_dialing-append i xs ys)

count_conn-append :
    (i : ℕ) (xs ys : List ℕ) → count_conn i (xs ++ ys) ≡ count_conn i xs + count_conn i ys
unfolding count_conn
count_conn-append i [] ys = omega arith
count_conn-append i (c ∷ xs) ys = omega (arith, count_conn-append i xs ys)

count_conn-values : (i : ℕ) (m : Map Bytes ℕ) → count_conn i (values m) ≡ total (is_conn i) m
unfolding count_conn total
count_conn-values i [] = refl
count_conn-values i ((k, v) ∷ m) = omega (arith, count_conn-values i m)

count_dialing-take_dialing :
    (i n : ℕ) (xs : List (Bytes × ℕ)) (node : Bytes) (c : ℕ) (others : List (Bytes × ℕ))
    → take_dialing n xs ≡ some ((node, c), others)
    → count_dialing i xs ≡ (if c == i then 1 else 0) + count_dialing i others
unfolding take_dialing count_dialing
count_dialing-take_dialing i n [] node c others h = absurd (cc)
count_dialing-take_dialing i zero (x ∷ xs) node c others h = ground (arith, h)
count_dialing-take_dialing i (suc n) (x ∷ xs) node c others h =
    elim (Option-cases (take_dialing n xs)) [
      | inl p ↦ absurd (ground (arith, h, p))
      | inr (((m, d), ys), p) ↦ ground (arith, h, p, count_dialing-take_dialing i n xs m d ys p)
    ]

-- A connection that was opened is in the table, or with a caller that has not saved it, or closed: in one
-- of these places, once. No node stands twice in the table.
pub record IsAccounted (p : Pool) : Type 0 where
  pub once : IsMap p.peers
  pub placed :
      (i : ℕ)
      → total (is_conn i) p.peers + count_dialing i p.dialing + count_conn i p.closed
        ≡ (if ltb i p.opened then 1 else 0)

dial_in-IsAccounted :
    (found : Option ℕ) (node : Bytes) (ok : Bool) (p : Pool)
    → IsAccounted p
    → IsAccounted (dial_in found node ok p)
unfolding dial_in count_dialing
dial_in-IsAccounted (some c) node ok p h = record { once = h.once; placed = h.placed }
dial_in-IsAccounted none node false p h = h
dial_in-IsAccounted none node true p h = record {
  once = h.once;
  placed =
      λ i. ground (arith, h.placed i, count_dialing-append i p.dialing ((node, p.opened) ∷ []));
}

save_in-IsAccounted :
    (found : Option ℕ) (node : Bytes) (conn : ℕ) (others : List (Bytes × ℕ)) (p : Pool)
    → lookup node p.peers ≡ found
    → ((i : ℕ) → count_dialing i p.dialing ≡ (if conn == i then 1 else 0) + count_dialing i others)
    → IsAccounted p
    → IsAccounted (save_in found node conn (record p { dialing = others }))
unfolding save_in count_conn
save_in-IsAccounted (some c) node conn others p f t h = record {
  once = h.once;
  placed = λ i. ground (arith, h.placed i, t i);
}
save_in-IsAccounted none node conn others p f t h = record {
  once = IsMap-insert node conn p.peers h.once;
  placed = λ i. ground (arith, h.placed i, t i, f, total-insert (is_conn i) node conn p.peers);
}

save_at-IsAccounted :
    (found : Option ((Bytes × ℕ) × List (Bytes × ℕ))) (n : ℕ) (p : Pool)
    → take_dialing n p.dialing ≡ found
    → IsAccounted p
    → IsAccounted (save_at found p)
unfolding save_at
save_at-IsAccounted none n p f h = h
save_at-IsAccounted (some ((node, conn), others)) n p f h =
    save_in-IsAccounted (lookup node p.peers) node conn others p refl
      (λ i. count_dialing-take_dialing i n p.dialing node conn others f) h

drop_in-IsAccounted :
    (found : Option ℕ) (node : Bytes) (p : Pool)
    → lookup node p.peers ≡ found
    → IsAccounted p
    → IsAccounted (drop_in found node p)
unfolding drop_in count_conn
drop_in-IsAccounted none node p f h = h
drop_in-IsAccounted (some c) node p f h = record {
  once = IsMap-erase node p.peers h.once;
  placed = λ i. ground (arith, h.placed i, f, total-erase (is_conn i) node p.peers h.once);
}

pool_step-IsAccounted : (p : Pool) (e : PoolStep) → IsAccounted p → IsAccounted (pool_step p e)
unfolding pool_step total
pool_step-IsAccounted p (dial node ok) h = dial_in-IsAccounted (lookup node p.peers) node ok p h
pool_step-IsAccounted p (save i) h = save_at-IsAccounted (take_dialing i p.dialing) i p refl h
pool_step-IsAccounted p (drop node) h = drop_in-IsAccounted (lookup node p.peers) node p refl h
pool_step-IsAccounted p close_all h = record {
  once = tt;
  placed = λ i. omega (
    arith,
    h.placed i,
    count_conn-append i (values p.peers) p.closed,
    count_conn-values i p.peers,
  );
}

pool_steps-keep : (es : List PoolStep) (p : Pool) → IsAccounted p → IsAccounted (pool_steps p es)
unfolding pool_steps
pool_steps-keep [] p h = h
pool_steps-keep (e ∷ es) p h = pool_steps-keep es (pool_step p e) (pool_step-IsAccounted p e h)

-- Whatever calls, removals and `Close` interleave: each connection that was opened is in the table, or
-- with a caller that is about to save it, or closed, in exactly one of these places and once; so none is
-- lost, and none in the table is closed.
pub pool_steps-IsAccounted : (es : List PoolStep) → IsAccounted (pool_steps no_peers es)
unfolding total count_dialing count_conn
pool_steps-IsAccounted es =
    pool_steps-keep es no_peers (record { once = tt; placed = λ i. ground arith })
