-- ===== src/Controllers/NodeConfig/Loop/Runs.antt =====
-- The waits of the loop of Start, when it returns, and what it has recorded.
use karpenter_provider_rafay.Prelude.{
  ◌≡◌, refl, ◌⊎◌, inl, inr, ℕ, ◌*◌, ◌≤◌, String, Bool, true, false, List, [], ◌∷◌, ◌++◌, Option,
  none, some, All, Bool-cases, ltb, arith,
}
use karpenter_provider_rafay.Controllers.NodeConfig.{
  Docs, SyncError, ConfigState, initial_retry_delay, max_retry_delay, second,
}
use karpenter_provider_rafay.Controllers.NodeConfig.Loop.{
  Turn, Loop, Pass, continues, returns, next_delay, wait, after_sync, turn, loop, start,
}

abbrev pub loop_of : {Body : Type 0} → Pass Body → Loop Body
loop_of (continues l) = l
loop_of (returns l) = l

abbrev pub IsDelay : ℕ → Type 0
IsDelay d = (initial_retry_delay ≤ d) × (d ≤ max_retry_delay)

next_delay-IsDelay : (d : ℕ) → IsDelay d → IsDelay (next_delay d)
unfolding next_delay
next_delay-IsDelay d (low, high) = elim (Bool-cases (ltb max_retry_delay (d * 2))) [
  | inl e ↦ rw (next_delay, e) (omega arith, omega arith)
  | inr e ↦ rw (next_delay, e) (omega (arith, low), at_most e)
]
  where
    at_most : ltb max_retry_delay (d * 2) ≡ false → d * 2 ≤ max_retry_delay
    at_most e = ground (arith, e)

All-one : (P : ℕ → Type 0) (ds : List ℕ) (d : ℕ) → All P ds → P d → All P (ds ++ d ∷ [])
All-one P [] d h k = (k, tt)
All-one P (x ∷ ds) d h k = (h.0, All-one P ds d h.1 k)

module _ {Body : Type 0} (interval : ℕ) (decoder : String → Docs Body) where
  -- The sync interval, or a retry delay.
  abbrev pub IsWait : ℕ → Type 0
  IsWait d = (d ≡ interval) ⊎ IsDelay d

  abbrev IsPaced : Loop Body → Type 0
  IsPaced l = IsDelay l.delay × All IsWait l.waits

  wait-IsPaced :
      (done : Bool) (s : ConfigState Body) (d : ℕ) (ws : List ℕ)
      → IsDelay d
      → All IsWait ws
      → IsPaced (loop_of (wait interval done s d ws))
  unfolding wait
  wait-IsPaced true s d ws v w = (v, w)
  wait-IsPaced false s d ws v w = (v, w)

  after_sync-IsPaced :
      (t : Turn Body) (o : Option SyncError × ConfigState Body) (l : Loop Body)
      → IsPaced l
      → IsPaced (loop_of (after_sync interval t o l))
  unfolding after_sync
  after_sync-IsPaced t (none, s) l (d, w) =
      wait-IsPaced t.ctx_done s initial_retry_delay _ (omega arith, omega arith)
        (All-one IsWait l.waits interval w (inl refl))
  after_sync-IsPaced t (some e, s) l (d, w) = elim (Bool-cases t.ctx_err) [
    | inl c ↦ rw (after_sync, c) (d, w)
    | inr c ↦
        rw (after_sync, c)
          (wait-IsPaced t.ctx_done s (next_delay l.delay) _ (next_delay-IsDelay l.delay d)
            (All-one IsWait l.waits l.delay w (inr d)))
  ]

  loop-IsPaced :
      (turns : List (Turn Body)) (p : Pass Body)
      → IsPaced (loop_of p)
      → IsPaced (loop_of (loop interval decoder turns p))
  unfolding loop turn
  loop-IsPaced [] p v = v
  loop-IsPaced (t ∷ turns) (returns l) v = v
  loop-IsPaced (t ∷ turns) (continues l) v =
      loop-IsPaced turns (turn interval decoder t l) (after_sync-IsPaced t _ l v)

  -- Whatever the loop of Start meets, it waits the sync interval, or between five seconds and two
  -- minutes, and `delay * 2` never comes near the range of a Go duration.
  pub start_waits_bounded :
      (turns : List (Turn Body)) (s : ConfigState Body)
      → All IsWait (loop_of (start interval decoder turns s)).waits
        × (loop_of (start interval decoder turns s)).delay * 2 ≤ 240 * second
  unfolding start
  start_waits_bounded turns s =
      let paced = loop-IsPaced turns begin ((omega arith, omega arith), tt) in
      (paced.1, omega (arith, paced.0.1))
    where
      begin : Pass Body
      begin = continues (record { state = s; delay = initial_retry_delay; waits = [] })
