-- ===== src/Rpc/Handlers.antt =====
-- core/rpc.go, `Put`, `Delete` and `Get`: what the replies tell a client.
use nawst.Base.{
  ℕ, ◌≤◌, ◌≡◌, ◌≢◌, ◌↔◌, ◌∙◌, ap, refl, true, false, Option, none, some, Bytes, if◌then◌else◌,
  bytes_eq, bytes_eq_iff, arith, Option-cases, Bool-cases, inl, inr,
}
use nawst.Command.{Command, op_put, op_delete, Error, OpType, key_not_found}
use nawst.Store.{Store, cur_meta, apply, get_with_version, missing, found}
use nawst.Store.Register.{view, merge, written, reply, view-apply, get-view}
use nawst.Rpc.{
  Replicator, not_owner, failed_write, failed_replication, written_ok, request_of,
  send_and_replicate, serve_write, next_version, value_reply, not_found_reply, get,
}

module _ (rep : Replicator) (send : Command → Option Error) (c : Command) where
  confirmed :
      send c ≡ none → rep.replicate_to_all c ≡ none → send_and_replicate rep send c ≡ written_ok
  unfolding send_and_replicate
  confirmed s r = rw (s, r, send_and_replicate) refl

  confirmed-sent :
      send_and_replicate rep send c ≡ written_ok → (send c ≡ none) × (rep.replicate_to_all c ≡ none)
  unfolding send_and_replicate
  confirmed-sent h = elim (Option-cases (send c)) [
    | inr (e, p) ↦ absurd (failed (rw (p, send_and_replicate) at h))
    | inl p ↦ elim (Option-cases (rep.replicate_to_all c)) [
      | inr (e, q) ↦ absurd (unreplicated (rw (p, q, send_and_replicate) at h))
      | inl q ↦ (p, q)
    ]
  ]
    where
      failed : failed_write ≢ written_ok
      failed e = cc

      unreplicated : failed_replication ≢ written_ok
      unreplicated e = cc

-- A write is confirmed exactly if this server may write the key, the event loop took the request with
-- the next version and returned no error, and the replicas took the same request.
pub serve_write-written_ok :
    (rep : Replicator) (send : Command → Option Error) (op : OpType) (key value : Bytes)
    (counter now : ℕ)
    → ((serve_write rep send op key value counter now).1 ≡ written_ok) ↔ (
        ((rep.check_ownership key).0 ≡ true)
        × (send (request_of rep op key value (next_version counter now)) ≡ none)
        × (rep.replicate_to_all (request_of rep op key value (next_version counter now)) ≡ none))
unfolding serve_write
serve_write-written_ok rep send op key value counter now =
    elim (Bool-cases (rep.check_ownership key).0) [
      | inl p ↦ rw p (
        λ h. let (x, y) = confirmed-sent rep send c h in (refl, x, y),
        λ h. confirmed rep send c h.1 h.2,
      )
      | inr p ↦ rw p (λ h. absurd (rejected (rep.check_ownership key).1 h), λ h. absurd (off h.0))
    ]
  where
    c : Command
    c = request_of rep op key value (next_version counter now)

    rejected : (owner : Bytes) → not_owner owner ≢ written_ok
    rejected owner e = cc

    off : false ≢ true
    off e = cc

-- Read your writes on one server: after a put with a version that is not below the one the store has
-- for its key, a get of this key with a minimum up to this version answers its value and its version.
pub get-apply_put :
    (s : Store) (c : Command) (min_version : ℕ)
    → c.op ≡ op_put
    → c.version ≢ 0
    → (cur_meta s c.key).version ≤ c.version
    → min_version ≤ c.version
    → get (some (get_with_version (apply s c).0 c.key)) min_version ≡ value_reply c.value c.version
unfolding get reply merge written view
get-apply_put s c min_version is_put numbered fresh low =
    ap (λ g. get (some g) min_version)
      (get-view (apply s c).0 c.key ∙ ap reply (view-apply s c c.key) ∙ merged)
    ∙ answered
  where
    merged :
        reply (if bytes_eq c.key c.key then merge (view s c.key) c else view s c.key)
        ≡ found c.value c.version
    merged = ground (arith, bytes_eq_iff c.key c.key)

    answered : get (some (found c.value c.version)) min_version ≡ value_reply c.value c.version
    answered = ground (arith)

-- After a delete that is not stale, a get of the key answers "not found", whatever minimum version the
-- client asks for.
pub get-apply_delete :
    (s : Store) (c : Command) (min_version : ℕ)
    → c.op ≡ op_delete
    → c.version ≢ 0
    → (cur_meta s c.key).version ≤ c.version
    → get (some (get_with_version (apply s c).0 c.key)) min_version ≡ not_found_reply
unfolding get reply merge written view
get-apply_delete s c min_version is_delete numbered fresh =
    ap (λ g. get (some g) min_version)
      (get-view (apply s c).0 c.key ∙ ap reply (view-apply s c c.key) ∙ merged)
  where
    merged :
        reply (if bytes_eq c.key c.key then merge (view s c.key) c else view s c.key)
        ≡ missing key_not_found
    merged = ground (arith, bytes_eq_iff c.key c.key)
