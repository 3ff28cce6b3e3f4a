-- ===== src/Rpc/StreamKv/Kept.antt =====
-- core/rpc.go, `StreamKV`: what each step of a call keeps of the order of the responses.
use nawst.Base.{
  ℕ, ◌+◌, ◌≤◌, ◌≡◌, refl, sym, ap, ◌∙◌, Bool, true, false, not, Option, none, some, List, [], ◌∷◌,
  ◌++◌, length, ltb, ◌==◌, ◌&&◌, ◌||◌, arith, length-append, if-cases, ◌<◌,
}
use mathlib.Core.List.{append_assoc}
use nawst.Rpc.StreamKv.{
  Call, CallPhase, checking, receiving, draining, returned, completed, LoopResponse, is_held,
  is_returned, take_in, send_in, check_in, respond_in,
}

abbrev pub none_or_one : Option LoopResponse → List LoopResponse
none_or_one none = []
none_or_one (some r) = r ∷ []

-- What the loop has answered and the stream has not taken.
abbrev pub unsent : Call → List LoopResponse
unsent c = none_or_one c.lost ++ (none_or_one c.held ++ c.resp_ch)

-- Did the call return nil?
abbrev pub is_completed : CallPhase → Bool
is_completed (returned completed) = true
is_completed _ = false

-- The responses stand in the order of the loop, each once. The counter of the wait group counts those
-- that the goroutine has not taken. A failed `Send` ends the goroutine, and the call does not return nil
-- after it.
pub record IsInOrder (c : Call) : Type 0 where
  pub answered : c.answers ≡ c.sent ++ unsent c
  pub counted :
      length c.accepted
      ≡ c.in_flight + (length c.sent + (length (none_or_one c.lost) + length (none_or_one c.held)))
  pub fewer : length c.answers ≤ length c.accepted
  pub ended : (not (is_held c.lost) || (c.receiver_done && not (is_held c.held))) ≡ true
  pub reported : (not (is_completed c.phase) || c.in_flight == 0) ≡ true

ltb-lt : (a b : ℕ) → ltb a b ≡ true → a < b
ltb-lt a b h = ground arith

-- As long as the goroutine holds a response no `Send` has failed.
nothing_lost :
    (c : Call) (r : LoopResponse) → c.held ≡ some r → IsInOrder c → none_or_one c.lost ≡ []
nothing_lost c r p h = ground (arith, h.ended, p)

unsent-held :
    (c : Call) (r : LoopResponse) → c.held ≡ some r → IsInOrder c → unsent c ≡ r ∷ c.resp_ch
unsent-held c r p h = ground (arith, nothing_lost c r p h, p)

pub length-unsent :
    (c : Call)
    → length (unsent c)
      ≡ length (none_or_one c.lost) + (length (none_or_one c.held) + length c.resp_ch)
length-unsent c = omega (
  arith,
  length-append (none_or_one c.lost) (none_or_one c.held ++ c.resp_ch),
  length-append (none_or_one c.held) c.resp_ch,
)

pub take_in-IsInOrder :
    (held : Option LoopResponse) (ch : List LoopResponse) (c : Call)
    → c.held ≡ held
    → c.resp_ch ≡ ch
    → IsInOrder c
    → IsInOrder (take_in held ch c)
unfolding take_in
take_in-IsInOrder (some r) ch c p q h = h
take_in-IsInOrder none [] c p q h = h
take_in-IsInOrder none (r ∷ ch) c p q h =
    if-cases IsInOrder c.receiver_done _ _ (λ d. h)
      (λ d. record {
        answered = ground (arith, h.answered, h.ended, p, q, d);
        counted = ground (
          arith,
          h.answered,
          h.ended,
          p,
          q,
          d,
          h.counted,
          h.fewer,
          ap (λ l. length l) h.answered,
          length-append c.sent (unsent c),
        );
        fewer = h.fewer;
        ended = ground (arith, h.ended, p, q, d);
        reported = ground (arith, h.reported);
      })

pub send_in-IsInOrder :
    (held : Option LoopResponse) (ok : Bool) (c : Call)
    → c.held ≡ held
    → IsInOrder c
    → IsInOrder (send_in held ok c)
unfolding send_in
send_in-IsInOrder none ok c p h = h
send_in-IsInOrder (some r) ok c p h =
    if-cases IsInOrder (ok && not (is_returned c.phase)) _ _
      (λ d.
        let l = nothing_lost c r p h in
        record {
          answered = rw l (
              h.answered
              ∙ ap (λ x. c.sent ++ x) (unsent-held c r p h)
              ∙ sym (append_assoc c.sent (r ∷ []) c.resp_ch));
          counted = ground (arith, h.counted, l, p, length-append c.sent (r ∷ []));
          fewer = h.fewer;
          ended = ground (arith, h.ended, p);
          reported = h.reported;
        })
      (λ d. record {
        answered = h.answered ∙ ap (λ x. c.sent ++ x) (unsent-held c r p h);
        counted = ground (arith, h.counted, nothing_lost c r p h, p);
        fewer = h.fewer;
        ended = refl;
        reported = h.reported;
      })

pub check_in-IsInOrder :
    (phase : CallPhase) (c : Call) → c.phase ≡ phase → IsInOrder c → IsInOrder (check_in phase c)
unfolding check_in
check_in-IsInOrder checking c p h =
    if-cases IsInOrder c.failure _ _
      (λ d. record {
        answered = h.answered;
        counted = h.counted;
        fewer = h.fewer;
        ended = h.ended;
        reported = refl;
      })
      (λ d. record {
        answered = h.answered;
        counted = h.counted;
        fewer = h.fewer;
        ended = h.ended;
        reported = refl;
      })
check_in-IsInOrder receiving c p h = h
check_in-IsInOrder draining c p h = h
check_in-IsInOrder (returned e) c p h = h

pub respond_in-IsInOrder : (c : Call) (r : LoopResponse) → IsInOrder c → IsInOrder (respond_in c r)
unfolding respond_in
respond_in-IsInOrder c r h =
    if-cases IsInOrder (ltb (length c.answers) (length c.accepted)) _ _
      (λ d. record {
        answered =
            ap (λ x. x ++ r ∷ []) h.answered
            ∙ append_assoc c.sent (unsent c) (r ∷ [])
            ∙ ap (λ x. c.sent ++ x)
                (append_assoc (none_or_one c.lost) (none_or_one c.held ++ c.resp_ch) (r ∷ [])
                  ∙ ap (λ x. none_or_one c.lost ++ x)
                      (append_assoc (none_or_one c.held) c.resp_ch (r ∷ [])));
        counted = h.counted;
        fewer = omega (arith, length-append c.answers (r ∷ []), ltb-lt _ _ d);
        ended = h.ended;
        reported = h.reported;
      })
      (λ d. h)
