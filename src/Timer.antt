-- ===== src/Timer.antt =====
-- oslib/kl/event.c: the queue of timer events in periodic mode.
-- A queue that the source links through `next` is the list of its events.
pub mod Queue
pub mod Tests
use free_dos.Common.{
  ℕ, zero, suc, ◌+◌, ◌*◌, ◌/◌, ◌%◌, ◌==◌, ◌||◌, ◌&&◌, if◌then◌else◌, Bool, true, false, not, ltb,
  List, [], ◌∷◌,
}
use free_dos.Common.Int.{ℤ, pos, negsuc}

pub record Timespec : Type 0 where
  pub tv_sec : ℕ
  pub tv_nsec : ℕ

-- struct event: `handler` and `par` stand for the pointers.
pub record Event : Type 0 where
  pub index : ℕ
  pub time : Timespec
  pub handler : ℕ
  pub par : ℕ

pub record Events : Type 0 where
  pub freeevents : List Event
  pub firstevent : List Event
  pub act_time : Timespec

abbrev pub timespec_a_gt_b : Timespec → Timespec → Bool
timespec_a_gt_b a b = ltb b.tv_sec a.tv_sec || (a.tv_sec == b.tv_sec && ltb b.tv_nsec a.tv_nsec)

-- ADDNANO2TIMESPEC.
abbrev pub add_nano : ℕ → Timespec → Timespec
add_nano n t = record {
  tv_sec = t.tv_sec + (t.tv_nsec + n) / 1_000_000_000;
  tv_nsec = (t.tv_nsec + n) % 1_000_000_000;
}

-- The walk to the place of the event `p`.
pub insert_event : Event → List Event → List Event
insert_event p [] = p ∷ []
insert_event p (p1 ∷ rest) =
    let behind = insert_event p rest in
    if timespec_a_gt_b p.time p1.time then p1 ∷ behind else p ∷ (p1 ∷ rest)

-- The index of the event, or -1.
pub periodic_event_post : Timespec → ℕ → ℕ → Events → ℤ × Events
unfolding insert_event
periodic_event_post time handler par s = elim s.freeevents [
  | [] ↦ (negsuc 0, s)
  | p ∷ free ↦ (
    pos p.index,
    record s {
      freeevents = free;
      firstevent =
          insert_event (record { index = p.index; time = time; handler = handler; par = par })
            s.firstevent;
    },
  )
]

-- The first event of the index, and the queue without it.
pub unlink : ℕ → List Event → List Event × List Event
unlink index [] = ([], [])
unlink index (p1 ∷ rest) =
    let r = unlink index rest in if index == p1.index then (p1 ∷ [], rest) else (r.0, p1 ∷ r.1)

-- 1, or -1 where no event has the index.
pub periodic_event_delete : ℕ → Events → ℤ × Events
unfolding unlink
periodic_event_delete index s = elim ((unlink index s.firstevent).0) [
  | [] ↦ (negsuc 0, s)
  | p ∷ others ↦ (
    pos 1,
    record s { freeevents = p ∷ s.freeevents; firstevent = (unlink index s.firstevent).1 },
  )
]

-- The loop of periodic_wake_up: the events whose handlers are called, in order, and the queues.
pub wake_loop : List Event → List Event → Timespec → List Event × Events
wake_loop free [] now = ([], record { freeevents = free; firstevent = []; act_time = now })
wake_loop free (p ∷ rest) now =
    let r = wake_loop (p ∷ free) rest now in
    if timespec_a_gt_b p.time now
    then ([], record { freeevents = free; firstevent = p ∷ rest; act_time = now })
    else (p ∷ r.0, r.1)

-- `nts` is the length of a tick. For handlers that leave the queues alone. The counter of the timer
-- chip and the prologue and epilogue are not modelled.
pub periodic_wake_up : ℕ → Events → List Event × Events
unfolding wake_loop
periodic_wake_up nts s = wake_loop s.freeevents s.firstevent (add_nano nts s.act_time)
