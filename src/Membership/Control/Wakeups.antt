-- ===== src/Membership/Control/Wakeups.antt =====
-- cluster/membership.go: no notification is forgotten.
use nawst.Base.{
  ℕ, ◌≤◌, ◌≡◌, refl, Bool, true, not, List, [], ◌∷◌, leb, ◌==◌, ◌&&◌, ◌||◌, if◌then◌else◌, arith,
}
use nawst.Membership.Control.{
  is_running, is_fired, Control, ControlStep, notify, take_event, take_signal, tick, stop,
  leave_membership, leave_reconcile, debounced, start_control, control_step, control_steps,
}

-- The notifications before the last attempt.
abbrev pub last_round : List ℕ → ℕ
last_round [] = 0
last_round (n ∷ rounds) = n

-- Something will wake `reconcileLoop`: an event in the channel, a signal, or the timer.
abbrev pub is_awake : {St : Type 0} → Control St → Bool
is_awake c =
    not (c.events == 0) || c.signal || (c.listening && (is_running c.timer || is_fired c.timer))

module _ {St In : Type 0} (attempt : In → St → St) where
  -- Unless `reconcileLoop` has returned, an attempt has seen every notification or one is to come; and no
  -- attempt has seen more than there are. While `debounceC` is set the timer has something to come.
  pub record IsHeard (c : Control St) : Type 0 where
    pub heard :
        (if c.reconcile_done || is_awake c then true else leb c.notified (last_round c.rounds))
        ≡ true
    pub waiting :
        (not c.listening || is_running c.timer || is_fired c.timer || c.reconcile_done) ≡ true
    pub seen : last_round c.rounds ≤ c.notified

  pub step-IsHeard :
      (c : Control St) (e : ControlStep In) → IsHeard c → IsHeard (control_step attempt c e)
  unfolding control_step
  step-IsHeard c notify h = ground arith
  step-IsHeard c take_event h = ground arith
  step-IsHeard c take_signal h = ground arith
  step-IsHeard c tick h = ground arith
  step-IsHeard c (debounced input) h = ground arith
  step-IsHeard c stop h = ground arith
  step-IsHeard c leave_membership h = ground arith
  step-IsHeard c leave_reconcile h = ground arith

  pub steps-keep :
      (es : List (ControlStep In)) (c : Control St)
      → IsHeard c
      → IsHeard (control_steps attempt c es)
  unfolding control_steps
  steps-keep [] c h = h
  steps-keep (e ∷ es) c h = steps-keep es (control_step attempt c e) (step-IsHeard c e h)

  -- No wake-up is lost: after any run of notifications, loops and clock, unless `reconcileLoop` has
  -- returned, the last attempt to reconcile came after all notifications, or an event is in its channel, a
  -- signal in its own, or the timer is running or done with `reconcileLoop` waiting for it. Events that a
  -- full channel drops are no exception.
  pub steps-IsHeard :
      (s : St) (es : List (ControlStep In)) → IsHeard (control_steps attempt (start_control s) es)
  steps-IsHeard s es =
      steps-keep es (start_control s) (record { heard = refl; waiting = refl; seen = omega arith })
