-- ===== src/Membership/Control/Rounds.antt =====
-- cluster/membership.go: how many attempts to reconcile there are.
use nawst.Base.{
  ℕ, ◌+◌, ◌≤◌, ◌≡◌, refl, sym, ap, ◌∙◌, subst, Bool, true, false, not, List, [], ◌∷◌, ◌&&◌,
  Bytes-eq, arith, length, inl, inr, Bool-cases,
}
use nawst.Membership.Control.{
  is_fired, Control, ControlStep, notify, take_event, take_signal, tick, stop, leave_membership,
  leave_reconcile, debounced, start_control, enqueue, pass_on, reset_debounce, debounce,
  control_step, control_steps,
}

abbrev one_if : Bool → ℕ
one_if true = 1
one_if false = 0

module _ {St In : Type 0} (attempt : In → St → St) where
  -- Every attempt, every wake-up under way and every event comes from a notification of its own.
  abbrev IsPaid : Control St → Type 0
  IsPaid c = length c.rounds + one_if c.listening + one_if c.signal + c.events ≤ c.notified

  step-IsPaid : (c : Control St) (e : ControlStep In) → IsPaid c → IsPaid (control_step attempt c e)
  unfolding control_step
  step-IsPaid c notify h = ground arith
  step-IsPaid c take_event h = ground arith
  step-IsPaid c take_signal h = ground arith
  step-IsPaid c tick h = ground arith
  step-IsPaid c (debounced input) h = ground arith
  step-IsPaid c stop h = ground arith
  step-IsPaid c leave_membership h = ground arith
  step-IsPaid c leave_reconcile h = ground arith

  steps-IsPaid :
      (es : List (ControlStep In)) (c : Control St) → IsPaid c → IsPaid (control_steps attempt c es)
  unfolding control_steps
  steps-IsPaid [] c h = h
  steps-IsPaid (e ∷ es) c h = steps-IsPaid es (control_step attempt c e) (step-IsPaid c e h)

  -- There are at most as many attempts to reconcile as notifications: nothing repeats an attempt.
  length-rounds-le :
      (s : St) (es : List (ControlStep In))
      → length (control_steps attempt (start_control s) es).rounds
        ≤ (control_steps attempt (start_control s) es).notified
  length-rounds-le s es = omega (arith, steps-IsPaid es (start_control s) (omega arith))

  notified_mono :
      (es : List (ControlStep In)) (c : Control St)
      → c.notified ≤ (control_steps attempt c es).notified
  unfolding control_steps control_step
  notified_mono [] c = omega arith
  notified_mono (notify ∷ es) c = ground (arith, notified_mono es (enqueue c))
  notified_mono (take_event ∷ es) c = ground (arith, notified_mono es (pass_on c))
  notified_mono (take_signal ∷ es) c = ground (arith, notified_mono es (reset_debounce c))
  notified_mono (tick ∷ es) c = notified_mono es (control_step attempt c tick)
  notified_mono (debounced input ∷ es) c =
      ground (arith, notified_mono es (debounce attempt c input))
  notified_mono (stop ∷ es) c = notified_mono es (control_step attempt c stop)
  notified_mono (leave_membership ∷ es) c =
      notified_mono es (control_step attempt c leave_membership)
  notified_mono (leave_reconcile ∷ es) c =
      ground (arith, notified_mono es (control_step attempt c leave_reconcile))

  -- What holds of a state and after one attempt on it holds throughout a run with one notification.
  module _ (s : St) (P : St → Type 0) (first : P s)
      (once : (input : In) → P (attempt input s)) where
    record IsSingle (c : Control St) : Type 0 where
      fresh : (length c.rounds ≡ 0) → c.state ≡ s
      holds : P c.state

    unmoved :
        (c c' : Control St) → c'.rounds ≡ c.rounds → c'.state ≡ c.state → IsSingle c → IsSingle c'
    unmoved c c' e f h = record {
      fresh = λ z. f ∙ h.fresh (ap (λ r. length r) (sym e) ∙ z);
      holds = subst P (sym f) h.holds;
    }

    debounce-IsSingle :
        (c : Control St) (input : In)
        → IsPaid c
        → c.notified ≤ 1
        → IsSingle c
        → IsSingle (debounce attempt c input)
    unfolding debounce
    debounce-IsSingle c input p n h =
        elim (Bool-cases (not c.reconcile_done && c.listening && is_fired c.timer)) [
          | inl q ↦
              let none_yet : length c.rounds ≡ 0 = ground (arith, p, n, q) in
              rw q (record {
                fresh = λ z. absurd (omega (arith, z));
                holds = subst (λ x. P (attempt input x)) (sym (h.fresh none_yet)) (once input);
              })
          | inr q ↦ rw q h
        ]

    step-IsSingle :
        (c : Control St) (e : ControlStep In)
        → IsPaid c
        → c.notified ≤ 1
        → IsSingle c
        → IsSingle (control_step attempt c e)
    unfolding control_step
    step-IsSingle c notify p n h = unmoved c (enqueue c) refl refl h
    step-IsSingle c take_event p n h = unmoved c (pass_on c) (ground arith) (ground arith) h
    step-IsSingle c take_signal p n h = unmoved c (reset_debounce c) (ground arith) (ground arith) h
    step-IsSingle c tick p n h = unmoved c (control_step attempt c tick) refl refl h
    step-IsSingle c (debounced input) p n h = debounce-IsSingle c input p n h
    step-IsSingle c stop p n h = unmoved c (control_step attempt c stop) refl refl h
    step-IsSingle c leave_membership p n h =
        unmoved c (control_step attempt c leave_membership) refl refl h
    step-IsSingle c leave_reconcile p n h =
        unmoved c (control_step attempt c leave_reconcile) (ground arith) (ground arith) h

    steps-single :
        (es : List (ControlStep In)) (c : Control St)
        → IsPaid c
        → IsSingle c
        → (control_steps attempt c es).notified ≤ 1
        → P (control_steps attempt c es).state
    unfolding control_steps
    steps-single [] c p h n = h.holds
    steps-single (e ∷ es) c p h n =
        steps-single es (control_step attempt c e) (step-IsPaid c e p)
          (step-IsSingle c e p (omega (arith, notified_mono (e ∷ es) c, n)) h) n

    pub steps-once :
        (es : List (ControlStep In))
        → (control_steps attempt (start_control s) es).notified ≤ 1
        → P (control_steps attempt (start_control s) es).state
    steps-once es n =
        steps-single es (start_control s) (omega arith)
          (record { fresh = λ z. refl; holds = first }) n
