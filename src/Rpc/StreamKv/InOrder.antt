-- ===== src/Rpc/StreamKv/InOrder.antt =====
-- core/rpc.go, `StreamKV`: which responses reach the client.
use nawst.Base.{
  ℕ, ◌≤◌, ◌≡◌, refl, ap, true, not, List, [], ◌∷◌, ◌++◌, length, ◌==◌, ◌&&◌, ◌||◌, arith,
  length-append, if-cases,
}
use nawst.Rpc.{Replicator}
use nawst.Rpc.StreamKv.{
  Call, new_call, CallPhase, checking, receiving, draining, returned, CallEnd, completed,
  send_failed, cancelled, StreamStep, check, take_response, cancel, leave, drained, drain_error,
  drain_cancelled, receive, respond, send_response, StreamInput, eof, broken, request, is_held,
  is_draining, receive_in, accept, request_as, end_with, stream_step, stream_steps,
}
use nawst.Rpc.StreamKv.Kept.{
  IsInOrder, check_in-IsInOrder, is_completed, length-unsent, respond_in-IsInOrder,
  send_in-IsInOrder, take_in-IsInOrder, unsent,
}

module _ (rep : Replicator) where
  receive_in-IsInOrder :
      (phase : CallPhase) (x : StreamInput) (c : Call)
      → IsInOrder c
      → IsInOrder (receive_in rep phase x c)
  unfolding receive_in accept
  receive_in-IsInOrder receiving eof c h = record {
    answered = h.answered;
    counted = h.counted;
    fewer = h.fewer;
    ended = h.ended;
    reported = refl;
  }
  receive_in-IsInOrder receiving broken c h = record {
    answered = h.answered;
    counted = h.counted;
    fewer = h.fewer;
    ended = h.ended;
    reported = refl;
  }
  receive_in-IsInOrder receiving (request op key value now) c h =
      let new = request_as rep c op key value now in
      record {
        answered = h.answered;
        counted = omega (arith, h.counted, length-append {0} c.accepted (new ∷ []));
        fewer = omega (arith, h.fewer, length-append {0} c.accepted (new ∷ []));
        ended = h.ended;
        reported = refl;
      }
  receive_in-IsInOrder checking x c h = h
  receive_in-IsInOrder draining x c h = h
  receive_in-IsInOrder (returned e) x c h = h

  end_with-IsInOrder :
      (e : CallEnd) (c : Call)
      → (not (is_completed (returned e)) || c.in_flight == 0) ≡ true
      → IsInOrder c
      → IsInOrder (end_with e c)
  end_with-IsInOrder e c z h = record {
    answered = h.answered;
    counted = h.counted;
    fewer = h.fewer;
    ended = h.ended;
    reported = ground (arith, z);
  }

  stream_step-IsInOrder :
      (c : Call) (e : StreamStep) → IsInOrder c → IsInOrder (stream_step rep c e)
  unfolding stream_step
  stream_step-IsInOrder c check h = check_in-IsInOrder c.phase c refl h
  stream_step-IsInOrder c (receive x) h = receive_in-IsInOrder c.phase x c h
  stream_step-IsInOrder c (respond r) h = respond_in-IsInOrder c r h
  stream_step-IsInOrder c take_response h = take_in-IsInOrder c.held c.resp_ch c refl refl h
  stream_step-IsInOrder c (send_response ok) h = send_in-IsInOrder c.held ok c refl h
  stream_step-IsInOrder c cancel h = record {
    answered = h.answered;
    counted = h.counted;
    fewer = h.fewer;
    ended = h.ended;
    reported = h.reported;
  }
  stream_step-IsInOrder c leave h =
      if-cases IsInOrder (c.ctx_done && not (is_held c.held)) _ _
        (λ d. record {
          answered = h.answered;
          counted = h.counted;
          fewer = h.fewer;
          ended = ground (arith, h.ended, d);
          reported = h.reported;
        })
        (λ d. h)
  stream_step-IsInOrder c drained h =
      if-cases IsInOrder (is_draining c.phase && c.in_flight == 0) _ _
        (λ d. end_with-IsInOrder completed c (ground (arith, d)) h) (λ d. h)
  stream_step-IsInOrder c drain_error h =
      if-cases IsInOrder (is_draining c.phase && c.failure) _ _
        (λ d. end_with-IsInOrder send_failed c refl h) (λ d. h)
  stream_step-IsInOrder c drain_cancelled h =
      if-cases IsInOrder (is_draining c.phase && c.ctx_done) _ _
        (λ d. end_with-IsInOrder cancelled c refl h) (λ d. h)

  stream_steps-keep :
      (es : List StreamStep) (c : Call) → IsInOrder c → IsInOrder (stream_steps rep c es)
  unfolding stream_steps
  stream_steps-keep [] c h = h
  stream_steps-keep (e ∷ es) c h =
      stream_steps-keep es (stream_step rep c e) (stream_step-IsInOrder c e h)

  -- When a call returns nil, whatever the interleaving of the client, the event loop and the goroutine:
  -- every request that was read has its response from the loop, and the stream has taken these responses
  -- in the order of the loop, each once, all but at most the last one.
  pub stream_steps-completed :
      (counter : ℕ) (es : List StreamStep)
      → is_completed (stream_steps rep (new_call counter) es).phase ≡ true
      → (length (stream_steps rep (new_call counter) es).answers
          ≡ length (stream_steps rep (new_call counter) es).accepted)
        × ((stream_steps rep (new_call counter) es).answers
            ≡ (stream_steps rep (new_call counter) es).sent
              ++ unsent (stream_steps rep (new_call counter) es))
        × (length (unsent (stream_steps rep (new_call counter) es)) ≤ 1)
  stream_steps-completed counter es done =
      let c = stream_steps rep (new_call counter) es in
      let h = stream_steps-keep es (new_call counter) (record {
        answered = refl;
        counted = refl;
        fewer = omega arith;
        ended = refl;
        reported = refl;
      }) in
      let joined = ap (λ l. length l) h.answered in
      let split = length-append c.sent (unsent c) in
      let unsent_parts = length-unsent c in
      (
        ground (arith, h.counted, h.fewer, h.reported, done, joined, split, unsent_parts),
        h.answered,
        ground (arith, h.counted, h.fewer, h.reported, h.ended, done, joined, split, unsent_parts),
      )
