-- ===== src/Handoff/Defs.antt =====
-- `forkscan_initiate_collection` and `forkscan_thread` of forkscan-changed/forkscan.c, one critical
-- section or one read of shared memory at a time.
use pp_final_project.Prelude.{
  ℕ, suc, Bool, true, false, ◌&&◌, ◌||◌, ltb, leb, ◌==◌, if◌then◌else◌, List, [], ◌∷◌, Run, done,
  fail, assertion,
}

-- Where `forkscan_thread` stands.
pub data Gc : Type 0 where
  -- before `pthread_mutex_lock(&g_gc_mutex)`
  at_top : Gc
  -- in `pthread_cond_wait(&g_gc_cond, &g_gc_mutex)`
  sleeping : Gc
  -- in it, after a signal
  signalled : Gc
  -- in it, and it returns without a signal
  woken : Gc
  -- before it locks `g_client_waiting_lock`; it has `g_gc_mutex`
  broadcasting : (ab : List ℕ) → Gc
  -- in `reclaim_iteration`
  reclaiming : (ab : List ℕ) → Gc

-- Where a thread stands in `forkscan_initiate_collection`.
pub data Client : Type 0 where
  -- outside it
  outside : Client
  -- before the condition of the `while`
  throttled : Client
  -- before it locks `g_client_waiting_lock`
  checking : Client
  -- in `pthread_cond_wait(&g_client_waiting_cond, &g_client_waiting_lock)`
  asleep : Client

pub record System : Type 0 where
  -- `g_waiting_collects`
  pub waiting_collects : ℕ
  -- `g_addr_buffer`: the numbers of the buffers, linked by `next`
  pub addr_buffer : List ℕ
  -- whether `g_gc_waiting` is `GC_WAITING_FOR_WORK`
  pub gc_waiting : Bool
  pub gc : Gc
  pub clients : ℕ → Client
  -- the lists that `reclaim_iteration` was called with, the last call first
  pub rounds : List (List ℕ)

abbrev pub update : (ℕ → Client) → ℕ → Client → ℕ → Client
update f i a j = if i == j then a else f j

unfoldable pub has_gc_mutex : Gc → Bool
has_gc_mutex at_top = false
has_gc_mutex sleeping = false
has_gc_mutex signalled = false
has_gc_mutex woken = false
has_gc_mutex (broadcasting ab) = true
has_gc_mutex (reclaiming ab) = false

-- `pthread_cond_signal(&g_gc_cond)`
unfoldable pub cond_signal : Gc → Gc
cond_signal at_top = at_top
cond_signal sleeping = signalled
cond_signal signalled = signalled
cond_signal woken = woken
cond_signal (broadcasting ab) = broadcasting ab
cond_signal (reclaiming ab) = reclaiming ab

-- The section with `g_gc_mutex`, of thread `i`; `auto_run` is not negative.
unfoldable pub initiate_collection : ℕ → ℕ → ℕ → Bool → System → System
initiate_collection i ab auto_run force s =
    let counts = ltb 0 auto_run || force in
    record s {
      waiting_collects = if counts then suc s.waiting_collects else s.waiting_collects;
      addr_buffer = ab ∷ s.addr_buffer;
      gc = if s.gc_waiting && counts then cond_signal s.gc else s.gc;
      clients = update s.clients i (if ltb 0 auto_run then throttled else outside);
    }

-- The next step of thread `i` in the `while` behind it; `queue` is `g_forkscan_throttling_queue`.
unfoldable pub throttle : ℕ → ℕ → Client → System → System
throttle queue i outside s = s
throttle queue i throttled s = record s {
  clients = update s.clients i (if leb queue s.waiting_collects then checking else outside);
}
throttle queue i checking s = record s {
  clients = update s.clients i (if leb queue s.waiting_collects then asleep else throttled);
}
throttle queue i asleep s = s

-- `pthread_cond_broadcast(&g_client_waiting_cond)`
unfoldable pub wake : Client → Client
wake outside = outside
wake throttled = throttled
wake checking = checking
wake asleep = throttled

-- All buffers are taken, and the counter is reset.
unfoldable pub take_buffers : ℕ → System → List ℕ → Run System
take_buffers queue s [] = fail assertion
take_buffers queue s (ab ∷ rest) = done (record s {
  waiting_collects = 0;
  addr_buffer = [];
  gc = if leb queue s.waiting_collects then broadcasting (ab ∷ rest) else reclaiming (ab ∷ rest);
  rounds = (ab ∷ rest) ∷ s.rounds;
})

-- `pthread_cond_wait(&g_gc_cond, &g_gc_mutex)` may return without a signal.
unfoldable pub wake_up : System → System
wake_up s = record s { gc = woken }

-- What follows that wait.
unfoldable pub after_wait : ℕ → System → Run System
after_wait queue s = take_buffers queue (record s { gc_waiting = false }) s.addr_buffer

-- The next step of `forkscan_thread`; in the wait there is none.
unfoldable pub collect : ℕ → Gc → System → Run System
collect queue at_top s =
    if ltb s.waiting_collects 1
    then done (record s { gc_waiting = true; gc = sleeping })
    else take_buffers queue s s.addr_buffer
collect queue sleeping s = done s
collect queue signalled s = after_wait queue s
collect queue woken s = after_wait queue s
collect queue (broadcasting ab) s =
    done (record s { gc = reclaiming ab; clients = λ i. wake (s.clients i) })
collect queue (reclaiming ab) s = done (record s { gc = at_top })
