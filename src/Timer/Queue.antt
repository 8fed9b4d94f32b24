-- ===== src/Timer/Queue.antt =====
-- The order of the timer events of oslib/kl/event.c, and which of them a tick calls.
use free_dos.Common.{
  ℕ, ◌+◌, ◌≡◌, refl, ◌≢◌, ◌⊎◌, inl, inr, ◌==◌, true, false, Bool-cases, List, [], ◌∷◌, ◌++◌, length,
  sym, ap, subst, arith,
}
use free_dos.Common.Int.{pos, negsuc}
use free_dos.Timer.{
  Timespec, Event, Events, timespec_a_gt_b, add_nano, insert_event, periodic_event_post, unlink,
  periodic_event_delete, wake_loop, periodic_wake_up,
}

-- `a` is not after `b`.
abbrev pub NotAfter : Timespec → Timespec → Type 0
NotAfter a b = timespec_a_gt_b a b ≡ false

-- No event of the list is before `t`, and the list is in the order of time.
abbrev pub IsSorted : List Event → Type 0
IsSorted [] = Unit {0}
IsSorted (p ∷ []) = Unit {0}
IsSorted (p ∷ q ∷ rest) = NotAfter p.time q.time × IsSorted (q ∷ rest)

insert_event-IsSorted : (p : Event) (l : List Event) → IsSorted l → IsSorted (insert_event p l)
unfolding insert_event
insert_event-IsSorted p [] s = tt
insert_event-IsSorted p (q ∷ []) s = ground arith
insert_event-IsSorted p (q ∷ r ∷ rest) s = ground (arith, insert_event-IsSorted p (r ∷ rest))

abbrev pub All : (Event → Type 0) → List Event → Type 0
All P [] = Unit {0}
All P (p ∷ rest) = P p × All P rest

-- The event stands behind all that are before its time, and in front of the others.
abbrev pub InPlace : Event → List Event → List Event → Type 0
InPlace p l l' =
    (xs ys : List Event) × (l ≡ xs ++ ys)
    × (l' ≡ xs ++ (p ∷ ys))
    × All (λ q. timespec_a_gt_b p.time q.time ≡ true) xs
    × All (λ q. NotAfter p.time q.time) ys

-- In a sorted queue what follows an event that is not before `t` is not before `t` either.
NotAfter-All :
    (t : Timespec) (q : Event) (l : List Event)
    → IsSorted (q ∷ l)
    → NotAfter t q.time
    → All (λ q. NotAfter t q.time) (q ∷ l)
NotAfter-All t q [] s h = (h, tt)
NotAfter-All t q (r ∷ l) s h = (h, NotAfter-All t r l (s.1) (ground arith))

IsSorted-tail : (q : Event) (l : List Event) → IsSorted (q ∷ l) → IsSorted l
IsSorted-tail q [] s = tt
IsSorted-tail q (r ∷ l) s = s.1

insert_event-InPlace : (p : Event) (l : List Event) → IsSorted l → InPlace p l (insert_event p l)
unfolding insert_event
insert_event-InPlace p [] s = ([], [], refl, refl, tt, tt)
insert_event-InPlace p (q ∷ l) s = elim (Bool-cases (timespec_a_gt_b p.time q.time)) [
  | inl e ↦
      let (xs, ys, a, b, c, d) = insert_event-InPlace p l (IsSorted-tail q l s) in
      (q ∷ xs, ys, ap (λ l. q ∷ l) a, rw e (ap (λ l. q ∷ l) b), (e, c), d)
  | inr e ↦ ([], q ∷ l, refl, rw e refl, tt, NotAfter-All p.time q l s e)
]

abbrev posted : Timespec → ℕ → ℕ → Event → Event
posted time handler par p = record { index = p.index; time = time; handler = handler; par = par }

post_none :
    (time : Timespec) (handler par : ℕ) (s : Events)
    → s.freeevents ≡ []
    → periodic_event_post time handler par s ≡ (negsuc 0, s)
unfolding periodic_event_post
post_none time handler par s e = rw e refl

post_some :
    (time : Timespec) (handler par : ℕ) (s : Events) (p : Event) (free : List Event)
    → s.freeevents ≡ p ∷ free
    → periodic_event_post time handler par s ≡ (
      pos p.index,
      record s {
        freeevents = free;
        firstevent = insert_event (posted time handler par p) s.firstevent;
      },
    )
unfolding periodic_event_post
post_some time handler par s p free e = rw e refl

List-cases : (l : List Event) → (l ≡ []) ⊎ ((p : Event) × (rest : List Event) × (l ≡ p ∷ rest))
List-cases [] = inl refl
List-cases (p ∷ rest) = inr (p, rest, refl)

-- For a sorted queue: periodic_event_post returns -1 and changes nothing where no event is free.
-- Otherwise it takes the first free event and returns its index; with the given time, handler and
-- parameter the event stands behind all events of the queue that are before its time, and in front
-- of all others; the queue stays sorted.
pub periodic_event_post_lem :
    (time : Timespec) (handler par : ℕ) (s : Events)
    → IsSorted s.firstevent
    → let r = periodic_event_post time handler par s in
      IsSorted (r.1.firstevent)
      × (((s.freeevents ≡ []) × (r ≡ (negsuc 0, s)))
          ⊎ ((p : Event) × (s.freeevents ≡ p ∷ r.1.freeevents)
              × (r.0 ≡ pos p.index)
              × (r.1.act_time ≡ s.act_time)
              × InPlace
                  (record { index = p.index; time = time; handler = handler; par = par })
                  s.firstevent
                  (r.1.firstevent)))
periodic_event_post_lem time handler par s h = elim (List-cases s.freeevents) [
  | inl e ↦ rw (post_none time handler par s e) (h, inl (e, refl))
  | inr (p, free, e) ↦ rw (post_some time handler par s p free e) (
    insert_event-IsSorted (posted time handler par p) s.firstevent h,
    inr (p, e, refl, refl, insert_event-InPlace (posted time handler par p) s.firstevent h),
  )
]

later-All :
    (now : Timespec) (q : Event) (l : List Event)
    → IsSorted (q ∷ l)
    → timespec_a_gt_b q.time now ≡ true
    → All (λ p. timespec_a_gt_b p.time now ≡ true) (q ∷ l)
later-All now q [] s h = (h, tt)
later-All now q (r ∷ l) s h = (h, later-All now r l (s.1) (ground arith))

wake_loop_lem :
    (free l : List Event) (now : Timespec)
    → IsSorted l
    → let r = wake_loop free l now in
      (l ≡ r.0 ++ r.1.firstevent)
      × All (λ p. NotAfter p.time now) (r.0)
      × All (λ p. timespec_a_gt_b p.time now ≡ true) (r.1.firstevent)
      × IsSorted (r.1.firstevent)
      × (length (r.1.freeevents) ≡ length (r.0) + length free)
      × (r.1.act_time ≡ now)
unfolding wake_loop
wake_loop_lem free [] now s = (refl, tt, tt, tt, omega arith, refl)
wake_loop_lem free (p ∷ l) now s = elim (Bool-cases (timespec_a_gt_b p.time now)) [
  | inl e ↦ rw e (refl, tt, later-All now p l s e, s, omega arith, refl)
  | inr e ↦
      let (a, b, c, d, f, g) = wake_loop_lem (p ∷ free) l now (IsSorted-tail p l s) in
      rw e (ap (λ l. p ∷ l) a, (e, b), c, d, omega (arith, f), g)
]

-- For a sorted queue: a tick calls exactly the events whose time has come, in the order of the queue,
-- and puts them on the free list; the events that are later stay queued, in order.
pub periodic_wake_up_lem :
    (nts : ℕ) (s : Events)
    → IsSorted s.firstevent
    → let now = add_nano nts s.act_time in
      let r = periodic_wake_up nts s in
      (s.firstevent ≡ r.0 ++ r.1.firstevent)
      × All (λ p. NotAfter p.time now) (r.0)
      × All (λ p. timespec_a_gt_b p.time now ≡ true) (r.1.firstevent)
      × IsSorted (r.1.firstevent)
      × (length (r.1.freeevents) ≡ length (r.0) + length s.freeevents)
      × (r.1.act_time ≡ now)
unfolding periodic_wake_up
periodic_wake_up_lem nts s h = wake_loop_lem s.freeevents s.firstevent (add_nano nts s.act_time) h

-- The first event of the index is taken out.
abbrev pub TakenOut : ℕ → Event → List Event → List Event → Type 0
TakenOut index p l l' =
    (xs ys : List Event) × (l ≡ xs ++ (p ∷ ys))
    × (l' ≡ xs ++ ys)
    × (p.index ≡ index)
    × All (λ q. index ≢ q.index) xs

unlink_lem :
    (index : ℕ) (l : List Event)
    → ((unlink index l ≡ ([], l)) × All (λ q. index ≢ q.index) l)
      ⊎ ((p : Event) × ((unlink index l).0 ≡ p ∷ []) × TakenOut index p l ((unlink index l).1))
unfolding unlink
unlink_lem index [] = inl (refl, tt)
unlink_lem index (p ∷ l) = elim (Bool-cases (index == p.index)) [
  | inl e ↦ rw e (inr (p, refl, ([], l, refl, refl, ground arith, tt)))
  | inr e ↦ elim (unlink_lem index l) [
    | inl (a, b) ↦ rw e (inl (λ i. ((a i).0, p ∷ (a i).1), (ground arith, b)))
    | inr (q, a, (xs, ys, b, c, d, f)) ↦
        rw e (inr (q, a, (p ∷ xs, ys, ap (λ l. p ∷ l) b, ap (λ l. p ∷ l) c, d, (ground arith, f))))
  ]
]

-- For two neighbours, so for what stays when one between them is taken out.
IsSorted-without :
    (xs : List Event) (p : Event) (ys : List Event)
    → IsSorted (xs ++ (p ∷ ys))
    → IsSorted (xs ++ ys)
IsSorted-without [] p ys s = IsSorted-tail p ys s
IsSorted-without (x ∷ []) p [] s = tt
IsSorted-without (x ∷ []) p (y ∷ ys) s = ground arith
IsSorted-without (x ∷ z ∷ xs) p ys s = (s.0, IsSorted-without (z ∷ xs) p ys (s.1))

delete_none :
    (index : ℕ) (s : Events)
    → unlink index s.firstevent ≡ ([], s.firstevent)
    → periodic_event_delete index s ≡ (negsuc 0, s)
unfolding periodic_event_delete
delete_none index s e = rw (ap (λ r. r.0) e, periodic_event_delete) refl

delete_some :
    (index : ℕ) (s : Events) (p : Event)
    → (unlink index s.firstevent).0 ≡ p ∷ []
    → periodic_event_delete index s ≡ (
      pos 1,
      record s { freeevents = p ∷ s.freeevents; firstevent = (unlink index s.firstevent).1 },
    )
unfolding periodic_event_delete
delete_some index s p e = rw (e, periodic_event_delete) refl

-- For a sorted queue: periodic_event_delete returns -1 and changes nothing where no event of the
-- queue has the index. Otherwise it returns 1, takes the first event of the index out of the queue
-- and puts it in front of the free list; the other events stay as they are, in order.
pub periodic_event_delete_lem :
    (index : ℕ) (s : Events)
    → IsSorted s.firstevent
    → let r = periodic_event_delete index s in
      IsSorted (r.1.firstevent)
      × (((r ≡ (negsuc 0, s)) × All (λ q. index ≢ q.index) s.firstevent)
          ⊎ ((p : Event) × (r.0 ≡ pos 1)
              × (r.1.freeevents ≡ p ∷ s.freeevents)
              × (r.1.act_time ≡ s.act_time)
              × TakenOut index p s.firstevent (r.1.firstevent)))
periodic_event_delete_lem index s h = elim (unlink_lem index s.firstevent) [
  | inl (e, a) ↦ rw (delete_none index s e) (h, inl (refl, a))
  | inr (p, e, (xs, ys, b, c, d, f)) ↦ rw (delete_some index s p e) (
    subst IsSorted (sym c) (IsSorted-without xs p ys (subst IsSorted b h)),
    inr (p, refl, refl, refl, (xs, ys, b, c, d, f)),
  )
]
