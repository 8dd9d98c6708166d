-- ===== src/Pool/Moves.antt =====
-- What each outcome of a turn under the lock says of the pool.
use go_prep.Base.{
  is_empty, ℕ, ◌≤◌, ◌<◌, ◌≡◌, ◌≢◌, refl, sym, ap, ◌∙◌, true, false, some, List, [], ◌∷◌, length,
  push_back, arith,
}
use go_prep.Pool.{
  Task, Entry, Pool, is_closed, Admission, throws, blocks, pushes, wait_not_full, push_task, sleeps,
  leaves, takes, faults, grab_front, take_task, graceful_shutdown, immediate_shutdown,
}
use go_prep.Pool.System.{Caller, arriving, woken, blocked, threw, returned, stuck, admit}

-- A task is pushed only into a pool that is open and has room.
pub record Pushes (p : Pool) (e : Entry) (p' : Pool) : Type 0 where
  pub room : length p.task_queue < p.max_queue_size
  pub open_pool : is_closed p ≡ false
  pub after : p' ≡ record p { task_queue = push_back p.task_queue e }

wait_not_full-Pushes : (p p' : Pool) (e : Entry) → wait_not_full p e ≡ pushes p' → Pushes p e p'
unfolding wait_not_full
wait_not_full-Pushes p p' e h = record {
  room = ground arith;
  open_pool = ground arith;
  after = ground arith;
}

push_task-Pushes : (p p' : Pool) (e : Entry) → push_task p e ≡ pushes p' → Pushes p e p'
unfolding push_task
push_task-Pushes p p' e h =
    let waits : wait_not_full p e ≡ pushes p' = ground arith in wait_not_full-Pushes p p' e waits

pub admit-Pushes :
    (p p' : Pool) (c : Caller) (t : Task) (n : ℕ)
    → admit p c n ≡ some (t, pushes p')
    → Pushes p (record { task = t; promise = n }) p'
unfolding admit
admit-Pushes p p' (arriving u) t n h =
    let same : u ≡ t = cc h in
    let pushed : push_task p (record { task = u; promise = n }) ≡ pushes p' = cc h in
    rw (sym same) (push_task-Pushes p p' _ pushed)
admit-Pushes p p' (woken u) t n h =
    let same : u ≡ t = cc h in
    let pushed : wait_not_full p (record { task = u; promise = n }) ≡ pushes p' = cc h in
    rw (sym same) (wait_not_full-Pushes p p' _ pushed)
admit-Pushes p p' (blocked u) t n h = ground arith
admit-Pushes p p' threw t n h = ground arith
admit-Pushes p p' (returned k) t n h = ground arith

-- A worker takes the oldest task, unless the pool is being shut down immediately.
pub record Takes (p : Pool) (e : Entry) (p' : Pool) : Type 0 where
  pub goes_on : p.is_immediate_shutdown ≡ false
  pub front : p.task_queue ≡ e ∷ p'.task_queue
  pub after : p' ≡ record p { task_queue = p'.task_queue }

grab_front-Takes :
    (p p' : Pool) (q : List Entry) (e : Entry)
    → grab_front p q ≡ takes e p'
    → (q ≡ e ∷ p'.task_queue) × (p' ≡ record p { task_queue = p'.task_queue })
unfolding grab_front
grab_front-Takes p p' [] e h = ground arith
grab_front-Takes p p' (d ∷ q) e h =
    let same : d ≡ e = cc h in
    let after : record p { task_queue = q } ≡ p' = cc h in
    let rest : q ≡ p'.task_queue = ap (λ x. x.task_queue) after in
    (rw (same, rest), sym after ∙ ap (λ es. record p { task_queue = es }) rest)

pub take_task-Takes : (p p' : Pool) (e : Entry) → take_task p ≡ takes e p' → Takes p e p'
unfolding take_task
take_task-Takes p p' e h =
    let grabbed : grab_front p p.task_queue ≡ takes e p' = ground arith in
    let goes_on : p.is_immediate_shutdown ≡ false = ground arith in
    let (front, after) = grab_front-Takes p p' p.task_queue e grabbed in
    record { goes_on = goes_on; front = front; after = after }

grab_front-faults : (p : Pool) (q : List Entry) → grab_front p q ≡ faults → is_empty q ≡ true
unfolding grab_front
grab_front-faults p [] h = refl
grab_front-faults p (e ∷ q) h = ground arith

-- `front` is never called on an empty queue.
pub take_task-faults : (p : Pool) → take_task p ≢ faults
unfolding take_task
take_task-faults p h =
    let grabbed : grab_front p p.task_queue ≡ faults = ground arith in
    let some_task : is_empty p.task_queue ≡ false = ground arith in
    let no_task = grab_front-faults p p.task_queue grabbed in ground arith

-- A worker leaves its loop only when the pool is closed, and of a graceful shutdown only when the
-- queue is empty.
pub record Leaves (p : Pool) : Type 0 where
  pub closed : is_closed p ≡ true
  pub drained : p.is_immediate_shutdown ≡ false → p.task_queue ≡ []

is_empty-nil : (q : List Entry) → is_empty q ≡ true → q ≡ []
is_empty-nil [] h = refl
is_empty-nil (e ∷ q) h = ground arith

grab_front-stays : (p : Pool) (q : List Entry) → grab_front p q ≢ leaves
unfolding grab_front
grab_front-stays p [] h = ground arith
grab_front-stays p (e ∷ q) h = ground arith

pub take_task-Leaves : (p : Pool) → take_task p ≡ leaves → Leaves p
unfolding take_task
take_task-Leaves p h = record {
  closed = ground (arith, grab_front-stays p p.task_queue);
  drained = λ on. is_empty-nil p.task_queue (ground (arith, grab_front-stays p p.task_queue));
}

grab_front-wakes : (p : Pool) (q : List Entry) → grab_front p q ≢ sleeps
unfolding grab_front
grab_front-wakes p [] h = ground arith
grab_front-wakes p (e ∷ q) h = ground arith

-- A worker goes to sleep only while the pool is open and its queue is empty.
pub take_task-sleeps :
    (p : Pool) → take_task p ≡ sleeps → (is_closed p ≡ false) × (p.task_queue ≡ [])
unfolding take_task
take_task-sleeps p h = (
  ground (arith, grab_front-wakes p p.task_queue),
  is_empty-nil p.task_queue (ground (arith, grab_front-wakes p p.task_queue)),
)

-- A shutdown is carried out by one call only, of either kind.
pub graceful_shutdown-some :
    (p p' : Pool)
    → graceful_shutdown p ≡ some p'
    → (is_closed p ≡ false) × (p' ≡ record p { is_graceful_shutdown = true })
unfolding graceful_shutdown
graceful_shutdown-some p p' h = ground arith

pub immediate_shutdown-some :
    (p p' : Pool)
    → immediate_shutdown p ≡ some p'
    → (is_closed p ≡ false) × (p' ≡ record p { is_immediate_shutdown = true; task_queue = [] })
unfolding immediate_shutdown
immediate_shutdown-some p p' h = ground arith

wait_not_full-blocks :
    (p : Pool) (e : Entry)
    → wait_not_full p e ≡ blocks
    → (is_closed p ≡ false) × (p.max_queue_size ≤ length p.task_queue)
unfolding wait_not_full
wait_not_full-blocks p e h = ground arith

-- A caller goes to sleep only while the pool is open and its queue is full.
pub admit-blocks :
    (p : Pool) (c : Caller) (t : Task) (n : ℕ)
    → admit p c n ≡ some (t, blocks)
    → (is_closed p ≡ false) × (p.max_queue_size ≤ length p.task_queue)
unfolding admit push_task
admit-blocks p (arriving u) t n h =
    let e : Entry = record { task = u; promise = n } in
    let at : push_task p e ≡ blocks = cc h in
    let waits : wait_not_full p e ≡ blocks = ground arith in wait_not_full-blocks p e waits
admit-blocks p (woken u) t n h =
    let e : Entry = record { task = u; promise = n } in
    let waits : wait_not_full p e ≡ blocks = cc h in wait_not_full-blocks p e waits
admit-blocks p (blocked u) t n h = ground arith
admit-blocks p threw t n h = ground arith
admit-blocks p (returned k) t n h = ground arith

-- What a call about to hold the lock is: it does not sleep.
admit-awake :
    (p : Pool) (c : Caller) (t : Task) (a : Admission) (n : ℕ)
    → admit p c n ≡ some (t, a)
    → stuck c ≡ 0
unfolding admit
admit-awake p (arriving u) t a n h = refl
admit-awake p (woken u) t a n h = refl
admit-awake p (blocked u) t a n h = ground arith
admit-awake p threw t a n h = refl
admit-awake p (returned k) t a n h = refl

-- A call throws only when the pool is closed.
wait_not_full-throws : (p : Pool) (e : Entry) → wait_not_full p e ≡ throws → is_closed p ≡ true
unfolding wait_not_full
wait_not_full-throws p e h = ground arith

pub admit-throws :
    (p : Pool) (c : Caller) (t : Task) (n : ℕ) → admit p c n ≡ some (t, throws) → is_closed p ≡ true
unfolding admit push_task
admit-throws p (arriving u) t n h =
    let e : Entry = record { task = u; promise = n } in
    let at : push_task p e ≡ throws = cc h in ground (arith, wait_not_full-throws p e)
admit-throws p (woken u) t n h =
    let e : Entry = record { task = u; promise = n } in
    let waits : wait_not_full p e ≡ throws = cc h in wait_not_full-throws p e waits
admit-throws p (blocked u) t n h = ground arith
admit-throws p threw t n h = ground arith
admit-throws p (returned k) t n h = ground arith
