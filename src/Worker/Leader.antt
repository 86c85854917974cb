-- ===== src/Worker/Leader.antt =====
-- The loop run_forever of src/smartdialer/worker/pacing_loop.py, the leadership of
-- src/smartdialer/db.py that it asks for, and workers that run it side by side. Postgres' advisory
-- locks are a parameter: sessions and keys are numbers, and `depth` is how often a session holds a
-- key. Every worker has the session of its dedicated connection, with its own number.
pub mod Invariant
pub mod Moves
pub mod Election
use smart_dialer.Common.{ℕ, ◌+◌, ◌-◌, ◌≡◌, ◌≢◌, Bool, true, false, ◌&&◌, if◌then◌else◌, ◌==◌}
use smart_dialer.Repo.Counters.{one_if}

pub record Locks : Type 1 where
  pub Server : Type 0
  pub depth : Server → ℕ → ℕ → ℕ
  pub try_lock : ℕ → ℕ → Server → Server × Bool
  pub unlock : ℕ → ℕ → Server → Server
  pub disconnect : ℕ → Server → Server

-- What Postgres documents: pg_try_advisory_lock succeeds exactly if no other session holds the key,
-- and then stacks; pg_advisory_unlock takes one back; the end of a session gives all of its locks
-- back. None of them touches another session or another key.
pub record AreDocumented (l : Locks) : Type 0 where
  pub granted :
      (i k : ℕ) (s : l.Server) → (l.try_lock i k s).1 ≡ true → (j : ℕ) → j ≢ i → l.depth s j k ≡ 0
  pub grants :
      (i k : ℕ) (s : l.Server) → ((j : ℕ) → j ≢ i → l.depth s j k ≡ 0) → (l.try_lock i k s).1 ≡ true
  pub try_depth :
      (i k : ℕ) (s : l.Server) (j m : ℕ)
      → l.depth (l.try_lock i k s).0 j m
        ≡ l.depth s j m + one_if ((l.try_lock i k s).1 && j == i && m == k)
  pub unlock_depth :
      (i k : ℕ) (s : l.Server) (j m : ℕ)
      → l.depth (l.unlock i k s) j m ≡ l.depth s j m - one_if (j == i && m == k)
  pub disconnect_depth :
      (i : ℕ) (s : l.Server) (j m : ℕ)
      → l.depth (l.disconnect i s) j m ≡ (if j == i then 0 else l.depth s j m)

-- A call of run_forever: its campaign, its variable `leader`, whether it is still in its loop and
-- in `tick`, and whether `lock_con` is still connected.
pub record Pacer : Type 0 where
  pub campaign : ℕ
  pub leader : Bool
  pub running : Bool
  pub ticking : Bool
  pub linked : Bool

module _ (l : Locks) where
  open l use {Server, try_lock, unlock, disconnect}

  -- Db.try_leader and Db.release_leader; `con` is a session.
  abbrev pub try_leader : ℕ → ℕ → Server → Server × Bool
  try_leader con campaign_id = try_lock con campaign_id

  abbrev pub release_leader : ℕ → ℕ → Server → Server
  release_leader con campaign_id = unlock con campaign_id

  -- What the loop comes to at its end, which an exception or a cancellation may bring about
  -- anywhere: the `finally` block. Over a lost connection the release is an exception too.
  unfoldable pub leave : ℕ → Pacer → Server → Server × Pacer
  leave con w s = (
    if w.leader && w.linked then release_leader con w.campaign s else s,
    record w { leader = false; running = false; ticking = false },
  )

  -- A round of the loop up to the call of `tick`, or up to the sleep before the next poll. A leader
  -- does not look at `lock_con`; who asks over a lost connection gets an exception.
  unfoldable pub iterate : ℕ → Pacer → Server → Server × Pacer
  unfolding leave
  iterate con w s =
      let (s', won) = try_leader con w.campaign s in
      if w.leader
      then (s, record w { ticking = true })
      else if w.linked
      then (s', record w { leader = won; ticking = won })
      else leave con w s

  -- The process dies, and its connections with it.
  abbrev pub crash : ℕ → Pacer → Server → Server × Pacer
  crash con w s = (
    disconnect con s,
    record w { leader = false; running = false; ticking = false; linked = false },
  )

  -- The server ends the session of `lock_con`, and the process goes on.
  abbrev pub lose : ℕ → Pacer → Server → Server × Pacer
  lose con w s = (disconnect con s, record w { linked = false })

  pub record Fleet : Type 0 where
    pub server : Server
    pub pacer : ℕ → Pacer

  abbrev pub put : ℕ → Pacer → (ℕ → Pacer) → ℕ → Pacer
  put i w ws j = if j == i then w else ws j

  -- The fleet after a worker's move.
  abbrev pub after_move : ℕ → (ℕ → Pacer → Server → Server × Pacer) → Fleet → Fleet
  after_move i move f =
      let (s, w) = move i (f.pacer i) f.server in record { server = s; pacer = put i w f.pacer }

  abbrev pub rest : ℕ → Pacer → Server → Server × Pacer
  rest con w s = (s, record w { ticking = false })

  pub data Step (f : Fleet) : Fleet → Type 0 where
    iterates :
        (i : ℕ)
        → (f.pacer i).running ≡ true
        → (f.pacer i).ticking ≡ false
        → Step f (after_move i iterate f)
    rests : (i : ℕ) → (f.pacer i).ticking ≡ true → Step f (after_move i rest f)
    leaves : (i : ℕ) → (f.pacer i).running ≡ true → Step f (after_move i leave f)
    crashes : (i : ℕ) → (f.pacer i).running ≡ true → Step f (after_move i crash f)
    loses : (i : ℕ) → (f.pacer i).running ≡ true → Step f (after_move i lose f)

  pub data Reach (f : Fleet) : Fleet → Type 0 where
    here : Reach f f
    next : {g h : Fleet} → Reach f g → Step g h → Reach f h

  -- Workers that have just entered the loop: nobody leads, and no session holds a lock.
  pub record IsFresh (f : Fleet) : Type 0 where
    pub follows : (i : ℕ) → (f.pacer i).leader ≡ false
    pub waits : (i : ℕ) → (f.pacer i).ticking ≡ false
    pub free : (i k : ℕ) → l.depth f.server i k ≡ 0
