-- ===== src/Membership/Control/Quiet.antt =====
-- cluster/membership.go: without new notifications the loops come to rest.
use nawst.Base.{
  ℕ, ◌*◌, ◌+◌, ◌≤◌, ◌≡◌, ◌⊎◌, ◌∙◌, ◌==◌, ◌&&◌, Bool, true, false, inl, inr, Bool-cases,
  if◌then◌else◌, ℕ, ◌≡◌, refl, true, false, not, List, [], ◌∷◌, ◌||◌, arith,
}
use nawst.Membership.Control.{
  Timer, running, fired, is_running, is_fired, Control, ControlStep, notify, stop, leave_membership,
  leave_reconcile, take_event, take_signal, tick, debounced, start_control, control_step,
  control_steps,
}
use nawst.Membership.Control.Wakeups.{IsHeard, last_round, steps-IsHeard, steps-keep}

-- At rest, with an attempt after the last notification.
pub record IsQuiet {St : Type 0} (c : Control St) : Type 0 where
  pub no_event : c.events ≡ 0
  pub no_signal : c.signal ≡ false
  pub no_wait : c.listening ≡ false
  pub up_to_date : last_round c.rounds ≡ c.notified

-- The steps that are left when nothing is notified and nobody stops the loops.
abbrev pub is_inner : {In : Type 0} → ControlStep In → Bool
is_inner notify = false
is_inner stop = false
is_inner _ = true

abbrev pub AllInner : {In : Type 0} → List (ControlStep In) → Type 0
AllInner [] = Unit
AllInner (e ∷ es) = (is_inner e ≡ true) × AllInner es

-- What the timer still has to do for `reconcileLoop`.
abbrev pub timer_work : Timer → ℕ
timer_work running = 2
timer_work fired = 1
timer_work _ = 0

-- A bound on the useful steps that are left.
abbrev pub work : {St : Type 0} → Control St → ℕ
work c =
    4 * c.events + (if c.signal then 3 else 0) + (if c.listening then timer_work c.timer else 0)

-- Does a step bring the next attempt closer?
abbrev pub is_useful : {St In : Type 0} → Control St → ControlStep In → Bool
is_useful c take_event = not c.membership_done && not (c.events == 0)
is_useful c take_signal = not c.reconcile_done && c.signal
is_useful c tick = c.listening && is_running c.timer
is_useful c (debounced input) = not c.reconcile_done && c.listening && is_fired c.timer
is_useful c _ = false

module _ {St In : Type 0} (attempt : In → St → St) where
  unfoldable pub useful_steps : Control St → List (ControlStep In) → ℕ
  useful_steps c [] = 0
  useful_steps c (e ∷ es) =
      (if is_useful c e then 1 else 0) + useful_steps (control_step attempt c e) es

  step-work :
      (c : Control St) (e : ControlStep In)
      → is_inner e ≡ true
      → work (control_step attempt c e) + (if is_useful c e then 1 else 0) ≤ work c
  unfolding control_step
  step-work c notify i = absurd (cc)
  step-work c take_event i = ground arith
  step-work c take_signal i = ground arith
  step-work c tick i = ground arith
  step-work c (debounced input) i = ground arith
  step-work c stop i = absurd (cc)
  step-work c leave_membership i = ground arith
  step-work c leave_reconcile i = ground arith

  steps-work :
      (es : List (ControlStep In)) (c : Control St)
      → AllInner es
      → work (control_steps attempt c es) + useful_steps c es ≤ work c
  unfolding control_steps useful_steps
  steps-work [] c i = omega arith
  steps-work (e ∷ es) c i =
      omega (arith, step-work c e i.0, steps-work es (control_step attempt c e) i.1)

  step-stopped :
      (c : Control St) (e : ControlStep In)
      → is_inner e ≡ true
      → (control_step attempt c e).stopped ≡ c.stopped
  unfolding control_step
  step-stopped c notify i = absurd (cc)
  step-stopped c take_event i = ground arith
  step-stopped c take_signal i = ground arith
  step-stopped c tick i = ground arith
  step-stopped c (debounced input) i = ground arith
  step-stopped c stop i = absurd (cc)
  step-stopped c leave_membership i = ground arith
  step-stopped c leave_reconcile i = ground arith

  steps-stopped :
      (es : List (ControlStep In)) (c : Control St)
      → AllInner es
      → (control_steps attempt c es).stopped ≡ c.stopped
  unfolding control_steps
  steps-stopped [] c i = refl
  steps-stopped (e ∷ es) c i =
      steps-stopped es (control_step attempt c e) i.1 ∙ step-stopped c e i.0

  -- Some step is useful.
  abbrev pub CanGoOn : Control St → Type 0
  CanGoOn c = (e : ControlStep In) × (is_inner e ≡ true) × (is_useful c e ≡ true)

  -- A loop returns only after the stop.
  abbrev ReturnsStopped : Control St → Type 0
  ReturnsStopped c = (not (c.membership_done || c.reconcile_done) || c.stopped) ≡ true

  step-ReturnsStopped :
      (c : Control St) (e : ControlStep In)
      → ReturnsStopped c
      → ReturnsStopped (control_step attempt c e)
  unfolding control_step
  step-ReturnsStopped c notify h = ground arith
  step-ReturnsStopped c take_event h = ground arith
  step-ReturnsStopped c take_signal h = ground arith
  step-ReturnsStopped c tick h = ground arith
  step-ReturnsStopped c (debounced i) h = ground arith
  step-ReturnsStopped c stop h = ground arith
  step-ReturnsStopped c leave_membership h = ground arith
  step-ReturnsStopped c leave_reconcile h = ground arith

  steps-ReturnsStopped :
      (es : List (ControlStep In)) (c : Control St)
      → ReturnsStopped c
      → ReturnsStopped (control_steps attempt c es)
  unfolding control_steps
  steps-ReturnsStopped [] c h = h
  steps-ReturnsStopped (e ∷ es) c h =
      steps-ReturnsStopped es (control_step attempt c e) (step-ReturnsStopped c e h)

  IsQuiet-or_useful :
      (input : In) (c : Control St)
      → c.membership_done ≡ false
      → c.reconcile_done ≡ false
      → IsHeard attempt c
      → IsQuiet c ⊎ CanGoOn c
  IsQuiet-or_useful input c m r h = elim (Bool-cases (c.events == 0)) [
    | inr p ↦ inr (take_event, refl, ground (arith, m, p))
    | inl p ↦ elim (Bool-cases c.signal) [
      | inl q ↦ inr (take_signal, refl, ground (arith, r, q))
      | inr q ↦ elim (Bool-cases c.listening) [
        | inl w ↦ elim (Bool-cases (is_running c.timer)) [
          | inl t ↦ inr (tick, refl, ground (arith, w, t))
          | inr t ↦ inr (debounced input, refl, ground (arith, h.waiting, r, w, t))
        ]
        | inr w ↦ inl (record {
          no_event = ground (arith, p);
          no_signal = q;
          no_wait = w;
          up_to_date = ground (arith, h.heard, h.seen, p, q, w, r);
        })
      ]
    ]
  ]

  -- From wherever a run without a stop has come, while no notification and no stop arrives, in every order
  -- of the steps of the two loops and the timer: at most as many of these steps are useful as `work` says,
  -- and as long as the loops are not at rest, with an attempt to reconcile after the last notification,
  -- one of them can take a useful step. Notifications that keep coming can put the attempt off.
  pub steps-IsQuiet :
      (input : In) (s : St) (es fs : List (ControlStep In))
      → (control_steps attempt (start_control s) es).stopped ≡ false
      → AllInner fs
      → (useful_steps (control_steps attempt (start_control s) es) fs
          ≤ work (control_steps attempt (start_control s) es))
        × (IsQuiet (control_steps attempt (control_steps attempt (start_control s) es) fs)
            ⊎ CanGoOn (control_steps attempt (control_steps attempt (start_control s) es) fs))
  steps-IsQuiet input s es fs unstopped i =
      let c = control_steps attempt (start_control s) es in
      let d = control_steps attempt c fs in
      let still : d.stopped ≡ false = steps-stopped fs c i ∙ unstopped in
      let done = steps-ReturnsStopped fs c (steps-ReturnsStopped es (start_control s) refl) in
      (
        omega (arith, steps-work fs c i),
        IsQuiet-or_useful input d (ground (arith, done, still)) (ground (arith, done, still))
            (steps-keep attempt fs c (steps-IsHeard attempt s es)),
      )
