-- ===== src/Membership/Control.antt =====
-- cluster/membership.go: the channel of membership events, `membershipLoop` and `reconcileLoop` with its
-- debounce timer. A run is a list of steps in any order: what the gossip library notifies, what each
-- loop receives, and the clock. What an attempt to reconcile does to a state is a parameter, with the
-- members and the time that it reads as its input.
pub mod Wakeups
pub mod Rounds
pub mod Quiet
use nawst.Base.{
  ℕ, zero, suc, ◌+◌, ◌-◌, Bool, true, false, not, Option, none, some, List, [], ◌∷◌, ltb, ◌==◌,
  ◌&&◌, ◌||◌, if◌then◌else◌,
}

-- The capacity of `MembershipEvents`.
abbrev pub event_capacity : ℕ
event_capacity = 100

-- `debounceTimer`: not made yet, running, with its time in the channel, or with nothing to come.
pub data Timer : Type 0 where
  no_timer running fired drained : Timer

abbrev pub is_running : Timer → Bool
is_running running = true
is_running _ = false

abbrev pub is_fired : Timer → Bool
is_fired fired = true
is_fired _ = false

abbrev pub halted : Timer → Timer
halted no_timer = no_timer
halted _ = drained

-- `events` are the ones in the channel, `signal` whether `reconcileCh` is full, `listening` whether
-- `debounceC` is set. `notified` and `rounds` count what the code does not: the notifications, and, for
-- each attempt, those before it.
pub record Control {ℓ} (St : Type ℓ) : Type ℓ where
  pub events : ℕ
  pub signal : Bool
  pub timer : Timer
  pub listening : Bool
  pub stopped : Bool
  pub membership_done : Bool
  pub reconcile_done : Bool
  pub notified : ℕ
  pub rounds : List ℕ
  pub state : St

-- `NotifyJoin`, `NotifyLeave` and `NotifyUpdate` are one step; `tick` is the time of the timer.
pub data ControlStep {ℓ} (In : Type ℓ) : Type ℓ where
  notify take_event take_signal tick stop leave_membership leave_reconcile : ControlStep In
  debounced : In → ControlStep In

module _ {ℓ} {St : Type ℓ} where
  abbrev pub start_control : St → Control St
  start_control s = record {
    events = 0;
    signal = false;
    timer = no_timer;
    listening = false;
    stopped = false;
    membership_done = false;
    reconcile_done = false;
    notified = 0;
    rounds = [];
    state = s;
  }

  -- `EnqueueMembershipEvent`: a full channel drops the event.
  unfoldable pub enqueue : Control St → Control St
  enqueue c = record c {
    events = if ltb c.events event_capacity then c.events + 1 else c.events;
    notified = c.notified + 1;
  }

  -- `membershipLoop`, case event, with `signalReconcile`.
  unfoldable pub pass_on : Control St → Control St
  pass_on c =
      if c.membership_done || c.events == 0
      then c
      else record c { events = c.events - 1; signal = true }

  -- `resetDebounce`: whatever the timer was, its channel is empty and it runs anew.
  unfoldable pub reset_debounce : Control St → Control St
  reset_debounce c =
      if c.reconcile_done || not c.signal
      then c
      else record c { signal = false; timer = running; listening = true }

module _ {ℓ κ} {St : Type ℓ} {In : Type κ} (attempt : In → St → St) where
  -- `reconcileLoop`, case debounceC.
  unfoldable pub debounce : Control St → In → Control St
  debounce c input =
      if not c.reconcile_done && c.listening && is_fired c.timer
      then record c {
        listening = false;
        timer = drained;
        rounds = c.notified ∷ c.rounds;
        state = attempt input c.state;
      }
      else c

  unfoldable pub control_step : Control St → ControlStep In → Control St
  unfolding enqueue pass_on reset_debounce debounce
  control_step c notify = enqueue c
  control_step c take_event = pass_on c
  control_step c take_signal = reset_debounce c
  control_step c tick = record c { timer = if is_running c.timer then fired else c.timer }
  control_step c (debounced input) = debounce c input
  control_step c stop = record c { stopped = true }
  control_step c leave_membership = record c { membership_done = c.stopped || c.membership_done }
  control_step c leave_reconcile =
      if c.stopped then record c { reconcile_done = true; timer = halted c.timer } else c

  unfoldable pub control_steps : Control St → List (ControlStep In) → Control St
  control_steps c [] = c
  control_steps c (e ∷ es) = control_steps (control_step c e) es
