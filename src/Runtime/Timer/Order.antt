-- ===== src/Runtime/Timer/Order.antt =====
-- The timer wakes the coroutines whose time has come, in order, and no others.
use lib_net_co_rpc.Prelude.{
  All, All-map, ◌≡◌, refl, ap, List, [], ◌∷◌, ◌++◌, arith, inl, inr, Bool-cases,
}
use lib_net_co_rpc.Prelude.Int.{◌≤ℤ◌, ◌<ℤ◌, leb_ℤ, le_of_leb_ℤ, lt_of_leb_ℤ}
use lib_net_co_rpc.Clock.{Time}
use lib_net_co_rpc.Runtime.Timer.{
  Entry, Timer, entry_le, push, pop_expired, get_expired_coroutines, reset_time_of_timefd,
  reset_to_top,
}

-- in ascending order of the times
abbrev pub Ascending : List Entry → Type 0
Ascending [] = Unit
Ascending (x ∷ heap) = All (λ y. x.time ≤ℤ y.time) heap × Ascending heap

push-All :
    (P : Entry → Type 0) (e : Entry) (heap : List Entry) → P e → All P heap → All P (push e heap)
unfolding push
push-All P e [] p h = (p, tt)
push-All P e (x ∷ heap) p (q, h) = elim (Bool-cases (entry_le e x)) [
  | inl first ↦ rw first (p, (q, h))
  | inr later ↦ rw later (q, push-All P e heap p h)
]

-- A new entry keeps the order.
pub push-Ascending : (e : Entry) (heap : List Entry) → Ascending heap → Ascending (push e heap)
unfolding push
push-Ascending e [] h = (tt, tt)
push-Ascending e (x ∷ heap) (low, h) = elim (Bool-cases (entry_le e x)) [
  | inl first ↦
      let le : e.time ≤ℤ x.time = ground arith in
      rw first ((le, All-map (λ y l. omega arith) heap low), (low, h))
  | inr later ↦
      let le : x.time ≤ℤ e.time = ground arith in
      rw later (push-All (λ y. x.time ≤ℤ y.time) e heap le low, push-Ascending e heap h)
]

pop_expired-splits :
    (now : Time) (heap : List Entry)
    → Ascending heap
    → let (expired, rest) = pop_expired now heap in
      (expired ++ rest ≡ heap)
      × All (λ x. x.time ≤ℤ now) expired
      × All (λ x. now <ℤ x.time) rest
      × Ascending rest
unfolding pop_expired
pop_expired-splits now [] h = (refl, tt, tt, tt)
pop_expired-splits now (x ∷ heap) (low, h) = elim (Bool-cases (leb_ℤ x.time now)) [
  | inl due ↦
      let (e, before, after, order) = pop_expired-splits now heap h in
      rw due (ap (λ xs. x ∷ xs) e, (le_of_leb_ℤ x.time now due, before), after, order)
  | inr pending ↦
      let l = lt_of_leb_ℤ x.time now pending in
      rw pending (refl, tt, (l, All-map (λ y k. omega arith) heap low), (low, h))
]

heap-reset :
    (now : Time) (heap : List Entry) (t : Timer)
    → (reset_to_top now heap t).timer_co_heap ≡ t.timer_co_heap
unfolding reset_time_of_timefd
heap-reset now [] t = refl
heap-reset now (x ∷ heap) t = refl

-- `getExpiredCoroutines` takes the entries whose time is not after the clock's reading, in order, and
-- leaves those whose time is after it, for a heap that is in order.
pub get_expired_coroutines-splits :
    (now later : Time) (t : Timer)
    → Ascending t.timer_co_heap
    → let (expired, t') = get_expired_coroutines now later t in
      (expired ++ t'.timer_co_heap ≡ t.timer_co_heap)
      × All (λ x. x.time ≤ℤ now) expired
      × All (λ x. now <ℤ x.time) t'.timer_co_heap
      × Ascending t'.timer_co_heap
unfolding get_expired_coroutines
get_expired_coroutines-splits now later t h =
    let rest = (pop_expired now t.timer_co_heap).1 in
    rw (heap-reset later rest (record t { timer_co_heap = rest }))
      (pop_expired-splits now t.timer_co_heap h)
