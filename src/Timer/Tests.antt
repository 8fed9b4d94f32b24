-- ===== src/Timer/Tests.antt =====
-- Runs of the timer events of oslib/kl/event.c.
use free_dos.Common.{ℕ, ◌≡◌, refl, ◌≢◌, ◌⊎◌, [], ◌∷◌}
use free_dos.Common.Int.{pos, negsuc}
use free_dos.Timer.{Timespec, Event, Events, periodic_event_post, periodic_event_delete}
use free_dos.Timer.Queue.{
  IsSorted, All, InPlace, TakenOut, periodic_event_post_lem, periodic_event_delete_lem,
}

abbrev at : ℕ → ℕ → Timespec
at s n = record { tv_sec = s; tv_nsec = n }

abbrev event : ℕ → ℕ → Event
event i s = record { index = i; time = at s 0; handler = 0; par = 0 }

-- Two events wait, two are free.
abbrev events : Events
events = record {
  freeevents = event 0 0 ∷ event 1 0 ∷ [];
  firstevent = event 2 1 ∷ event 3 5 ∷ [];
  act_time = at 0 999_999_999;
}

periodic_event_post_example :
    let r = periodic_event_post (at 3 0) 7 8 events in
    IsSorted (r.1.firstevent)
    × (((events.freeevents ≡ []) × (r ≡ (negsuc 0, events)))
        ⊎ ((p : Event) × (events.freeevents ≡ p ∷ r.1.freeevents)
            × (r.0 ≡ pos p.index)
            × (r.1.act_time ≡ events.act_time)
            × InPlace
                (record { index = p.index; time = at 3 0; handler = 7; par = 8 })
                events.firstevent
                (r.1.firstevent)))
periodic_event_post_example = periodic_event_post_lem (at 3 0) 7 8 events (refl, tt)

periodic_event_delete_example :
    let r = periodic_event_delete 3 events in
    IsSorted (r.1.firstevent)
    × (((r ≡ (negsuc 0, events)) × All (λ q. 3 ≢ q.index) events.firstevent)
        ⊎ ((p : Event) × (r.0 ≡ pos 1)
            × (r.1.freeevents ≡ p ∷ events.freeevents)
            × (r.1.act_time ≡ events.act_time)
            × TakenOut 3 p events.firstevent (r.1.firstevent)))
periodic_event_delete_example = periodic_event_delete_lem 3 events (refl, tt)
