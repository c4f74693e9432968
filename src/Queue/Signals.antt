-- ===== src/Queue/Signals.antt =====
-- The condition variables of `dedupList`: `dedup_thread` of idelta.c waits on `wCond` until there is room,
-- `rejpeg_thread` of rejpeg.c on `rCond` until there is a node or all have ended.
use im_dedup_plus.Prelude.{ℕ, suc, ◌+◌, ◌-◌, ◌<◌, ◌≡◌, Bool, true, false, ◌==◌, ltb, if◌then◌else◌}
use im_dedup_plus.Prelude.{Option, length, List, ◌∷◌, ◌++◌}
use im_dedup_plus.Queue.Threads.{Producer, working, System, start, Step, put, finish, get, leave}

-- How many of the threads that take nodes out sleep, and which of those that put nodes in.
pub record Sleeping : Type 0 where
  pub system : System
  pub readers : ℕ
  pub writers : ℕ → Bool

unfoldable pub set_writer : ℕ → Bool → (ℕ → Bool) → ℕ → Bool
set_writer k b writers n = if n == k then b else writers n

-- The thread that makes a step does not sleep.
abbrev pub IsAwake :
    {mem_size : ℕ → ℕ} {threads : ℕ} {s t : System}
    → Step mem_size threads s t
    → ℕ
    → (ℕ → Bool)
    → Type 0
IsAwake (put before after node rest list e fits p same) readers writers =
    writers (length before) ≡ false
IsAwake (finish before after e same) readers writers = writers (length before) ≡ false
IsAwake {s = s} (get node left list e used p same) readers writers = readers < s.consumers
IsAwake {s = s} (leave left e empty all same) readers writers = readers < s.consumers

-- `pthread_cond_signal(&dedupList->rCond)`: once behind a node, and behind the end of a thread as often
-- as there are threads that take nodes out (`REJPEG_THREAD_NUM`). Each wakes one that sleeps.
abbrev pub readers_behind :
    {mem_size : ℕ → ℕ} {threads : ℕ} {s t : System} → ℕ → Step mem_size threads s t → ℕ → ℕ
readers_behind consumers (put before after node rest list e fits p same) readers = readers - 1
readers_behind consumers (finish before after e same) readers = readers - consumers
readers_behind consumers (get node left list e used p same) readers = readers
readers_behind consumers (leave left e empty all same) readers = readers

-- `pthread_cond_signal(&dedupList->wCond)`, where a node is taken out: as often as there are threads that
-- put nodes in (`MIDDLE_THREAD_NUM`), so all of them wake.
abbrev pub writers_behind :
    {mem_size : ℕ → ℕ} {threads : ℕ} {s t : System}
    → Step mem_size threads s t
    → (ℕ → Bool)
    → ℕ
    → Bool
writers_behind (put before after node rest list e fits p same) writers k = writers k
writers_behind (finish before after e same) writers k = writers k
writers_behind (get node left list e used p same) writers k = false
writers_behind (leave left e empty all same) writers k = writers k

-- `pthread_cond_wait`.
pub data Sleep (mem_size : ℕ → ℕ) (threads : ℕ) (p q : Sleeping) : Type 0 where
  wait_read :
      p.readers < p.system.consumers
      → (p.system.list.counter == 0) ≡ true
      → (p.system.list.ending == threads) ≡ false
      → q ≡ record p { readers = p.readers + 1 }
      → Sleep mem_size threads p q
  wait_write :
      (before after : List Producer) (node : ℕ) (rest : List ℕ)
      → p.system.producers ≡ before ++ working (node ∷ rest) ∷ after
      → p.writers (length before) ≡ false
      → ltb p.system.list.size (mem_size node) ≡ true
      → q ≡ record p { writers = set_writer (length before) true p.writers }
      → Sleep mem_size threads p q

-- The states that some steps lead to, how many steps, and how often a thread fell asleep.
pub data Turns (mem_size : ℕ → ℕ) (threads consumers : ℕ) (p : Sleeping)
    : Sleeping → ℕ → ℕ → Type 0 where
  first : Turns mem_size threads consumers p p 0 0
  make :
      {q : Sleeping} {steps sleeps : ℕ} {t : System}
      → Turns mem_size threads consumers p q steps sleeps
      → (st : Step mem_size threads q.system t) → IsAwake st q.readers q.writers
      → Turns mem_size threads consumers p
          (record {
            system = t;
            readers = readers_behind consumers st q.readers;
            writers = writers_behind st q.writers;
          })
          (suc steps)
          sleeps
  sleep :
      {q r : Sleeping} {steps sleeps : ℕ}
      → Turns mem_size threads consumers p q steps sleeps
      → Sleep mem_size threads q r
      → Turns mem_size threads consumers p r steps (suc sleeps)

-- Nobody sleeps at first.
unfoldable pub all_awake : ℕ → (ℕ → Option ℕ) → List (List ℕ) → ℕ → Sleeping
unfolding start
all_awake capacity next work consumers = record {
  system = start capacity next work consumers;
  readers = 0;
  writers = λ k. false;
}
