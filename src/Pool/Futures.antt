-- ===== src/Pool/Futures.antt =====
-- The future that `pushTask` returns, as its holder sees it.
pub mod Positions
pub mod Numbering
pub mod Ready
use mathlib.Core.List.{Permᴰ}
use native.Mathlib.Nat.{ℕ_set}
use go_prep.Base.{
  total, ℕ, zero, suc, ◌+◌, ◌≤◌, ◌<◌, ◌≡◌, refl, sym, ap, ◌∙◌, Bool, true, false, Option, none,
  some, List, [], ◌∷◌, ◌++◌, append-nil, map, Perm, length, length-append, push_back, replicate,
  arith, ◌⊎◌, inl, inr, All, All-append, All-map, All-split, All-at, subst, ∥∥₁_elim, ◌==◌, ==_iff,
  if◌then◌else◌, Option-cases, Bool-cases,
}
use go_prep.Pool.{
  make_pool, Task, Entry, Pool, Outcome, value, exception, process, work, is_closed, pushes,
}
use go_prep.Pool.System.{
  Settled, System, Worker, checking, sleeping, working, exited, Caller, arriving, woken, blocked,
  threw, returned, wake_worker, wake_caller, asleep, stuck, NotifyOne, nobody, somebody, admit,
  start, Step, Reach, here, later, calls, caller_throws, caller_blocks, caller_pushes,
  worker_sleeps, worker_leaves, worker_takes, worker_finishes, worker_wakes, caller_wakes,
  closes_gracefully, closes_immediately, notifies_callers, notifies_workers, joins,
}
use go_prep.Pool.Queue.{QueueOk, Reach-QueueOk}
use go_prep.Pool.Promises.{
  running, running-append, running-same, running-notify, running-wake_all, running_start, finished,
  IsOwn, Reach-Kept,
}
use go_prep.Pool.Moves.{
  Pushes, admit-Pushes, Takes, take_task-Takes, graceful_shutdown-some, immediate_shutdown-some,
}
use go_prep.Pool.Shutdown.{joined-Complete}

-- A future is not ready yet, has what its promise was given, or has the error of a promise that was
-- destroyed.
pub data Future : Type 0 where
  pending : Future
  ready : Outcome → Future
  broken : Future

abbrev pub given : ℕ → List Settled → Option Outcome
given n [] = none
given n (x ∷ settled) = if x.entry.promise == n then some x.outcome else given n settled

abbrev pub has_promise : ℕ → List Entry → Bool
has_promise n [] = false
has_promise n (e ∷ es) = if e.promise == n then true else has_promise n es

unfoldable pub future_of : ℕ → System → Future
future_of n s = elim (given n s.settled) [
  | some o ↦ ready o
  | none ↦ if has_promise n s.dropped then broken else pending
]

-- `es[n]`
abbrev pub nth : List Entry → ℕ → Option Entry
nth [] n = none
nth (e ∷ es) zero = some e
nth (e ∷ es) (suc n) = nth es n
