-- ===== src/Locks/Progress.antt =====
-- No set of transfers, replays and relays' batches that run at once comes to a deadlock.
use go_ledger.Base.{
  ℕ, suc, ◌≡◌, refl, ◌∙◌, sym, ◌≤◌, ◌<◌, Bool, true, false, ◌&&◌, ◌||◌, List, [], ◌∷◌, ◌++◌, map,
  All, All-map, leb, ◌==◌, ==_refl, Bool-cases, inl, inr, ◌⊎◌, arith, subst,
}
use go_ledger.Locks.{
  Lock, conflicts, any_conflicts, holds, taken, Process, running, polling, ended, claims, Call,
  begun, Advances, takes, commits, Steps, OneOf, this, later, Reaches, stays, goes,
}
use go_ledger.Locks.Ranked.{top, rank, IsRanked, IsCall, begun-IsRanked, Steps-IsRanked}

OneOf-IsRanked :
    {seen ps ps' : List Process} → OneOf Steps seen ps ps' → All IsRanked ps → All IsRanked ps'
OneOf-IsRanked (this step) ranked = (Steps-IsRanked step ranked.0, ranked.1)
OneOf-IsRanked (later step) ranked = (ranked.0, OneOf-IsRanked step ranked.1)

Reaches-IsRanked : {ps ps' : List Process} → Reaches ps ps' → All IsRanked ps → All IsRanked ps'
Reaches-IsRanked stays ranked = ranked
Reaches-IsRanked (goes before step) ranked = OneOf-IsRanked step (Reaches-IsRanked before ranked)

-- the rank of the lock that a process wants next, and more when it has all
abbrev goal : Process → ℕ
goal (running held []) = suc (suc top)
goal (running held (l ∷ wanted)) = rank l
goal polling = suc (suc top)
goal ended = 0

abbrev pub is_running : Process → Bool
is_running (running held wanted) = true
is_running polling = true
is_running ended = false

unfoldable pub any_running : List Process → Bool
any_running [] = false
any_running (p ∷ ps) = is_running p || any_running ps

conflicts-rank : (h l : Lock) → conflicts h l ≡ true → rank h ≡ rank l
conflicts-rank h l c = ground arith

any_conflicts-rank :
    (n : ℕ) (l : Lock) (held : List Lock)
    → any_conflicts l held ≡ true
    → All (λ h. rank h < n) held
    → rank l < n
unfolding any_conflicts
any_conflicts-rank n l [] held_it below = absurd cc
any_conflicts-rank n l (h ∷ held) held_it below = elim (Bool-cases (conflicts h l)) [
  | inl same ↦ omega (arith, conflicts-rank h l same, below.0)
  | inr other ↦ any_conflicts-rank n l held (rw other at held_it) below.1
]

-- a lock that a process holds is below the one that it wants
holds-goal : (l : Lock) (p : Process) → IsRanked p → holds l p ≡ true → rank l < goal p
holds-goal l (running held []) ranked held_it =
    any_conflicts-rank (suc (suc top)) l held held_it ranked.2
holds-goal l (running held (w ∷ wanted)) ranked held_it =
    any_conflicts-rank (rank w) l held held_it (All-map held (λ h above. above.0) ranked.0)
holds-goal l polling ranked held_it = absurd cc
holds-goal l ended ranked held_it = absurd cc

abbrev IsBelow : ℕ → Process → Type 0
IsBelow n p = goal p ≤ n

-- nobody holds a lock that is as high as everybody's goal
highest_free :
    (l : Lock) (ps : List Process)
    → All IsRanked ps
    → All (IsBelow (rank l)) ps
    → taken l ps ≡ false
unfolding taken
highest_free l [] ranked below = refl
highest_free l (p ∷ ps) ranked below = elim (Bool-cases (holds l p)) [
  | inl held ↦ absurd (omega (arith, holds-goal l p ranked.0 held, below.0))
  | inr free ↦ rw free (highest_free l ps ranked.1 below.1)
]

All-append : (P : Process → Type 0) (ps qs : List Process) → All P ps → All P qs → All P (ps ++ qs)
All-append P [] qs all all' = all'
All-append P (p ∷ ps) qs all all' = (all.0, All-append P ps qs all.1 all')

-- a process whose goal is the highest goes ahead
highest-Advances :
    (p : Process) (others : List Process)
    → is_running p ≡ true
    → All IsRanked others
    → All (IsBelow (goal p)) others
    → (p' : Process) × Advances others p p'
highest-Advances (running held []) others runs ranked below = (ended, commits)
highest-Advances (running held (l ∷ wanted)) others runs ranked below =
    (running (l ∷ held) wanted, takes (highest_free l others ranked below))
highest-Advances polling others runs ranked below = (running [] [], claims [] tt)
highest-Advances ended others runs ranked below = absurd cc

-- a running process that has the goal n
unfoldable has_goal : ℕ → List Process → Bool
has_goal n [] = false
has_goal n (p ∷ ps) = is_running p && goal p == n || has_goal n ps

one-Advances :
    (n : ℕ) (seen ps : List Process)
    → All IsRanked seen
    → All IsRanked ps
    → All (IsBelow n) seen
    → All (IsBelow n) ps
    → has_goal n ps ≡ true
    → (ps' : List Process) × OneOf Advances seen ps ps'
unfolding has_goal
one-Advances n seen [] ranked ranked' below below' has = absurd cc
one-Advances n seen (p ∷ ps) ranked ranked' below below' has =
    elim (Bool-cases (is_running p && goal p == n)) [
      | inl here ↦
          let same : goal p ≡ n = ground (arith, here) in
          let (p', step) =
            highest-Advances p (seen ++ ps) (ground (arith, here))
              (All-append IsRanked seen ps ranked ranked'.1)
              (subst (λ m. All (IsBelow m) (seen ++ ps)) (sym same)
                (All-append (IsBelow n) seen ps below below'.1)) in
          (p' ∷ ps, this step)
      | inr other ↦
          let (ps', step) =
            one-Advances n (p ∷ seen) ps (ranked'.0, ranked) ranked'.1 (below'.0, below) below'.1
              (rw other at has) in
          (p ∷ ps', later step)
    ]

over_goal : (p : Process) → is_running p ≡ false → goal p ≤ 0
over_goal (running held wanted) over = absurd cc
over_goal polling over = absurd cc
over_goal ended over = omega arith

goal_runs : (n : ℕ) (p : Process) → n < goal p → is_running p ≡ true
goal_runs n (running held wanted) high = refl
goal_runs n polling high = refl
goal_runs n ended high = absurd (omega (arith, high))

-- the highest goal, unless all have ended
highest_goal :
    (ps : List Process)
    → ((any_running ps ≡ false) × All (IsBelow 0) ps)
      ⊎ ((n : ℕ) × (has_goal n ps ≡ true) × All (IsBelow n) ps)
unfolding any_running has_goal
highest_goal [] = inl (refl, tt)
highest_goal (p ∷ ps) = elim (highest_goal ps) [
  | inl (none_runs, low) ↦ elim (Bool-cases (is_running p)) [
    | inl runs ↦ inr (
      goal p,
      rw (runs, ==_refl (goal p)) refl,
      (omega arith, All-map ps (λ q below. omega (arith, below)) low),
    )
    | inr over ↦ inl (rw over none_runs, (over_goal p over, low))
  ]
  | inr (n, has, below) ↦ elim (Bool-cases (leb (goal p) n)) [
    | inl under ↦ inr (n, ground (arith, has), (ground (arith, under), below))
    | inr above ↦
        let higher : n < goal p = ground (arith, above) in
        inr (
          goal p,
          rw (goal_runs n p higher, ==_refl (goal p)) refl,
          (omega arith, All-map ps (λ q under. omega (arith, under, higher)) below),
        )
  ]
]

begun-All-IsRanked : (calls : List Call) → All IsCall calls → All IsRanked (map begun calls)
begun-All-IsRanked [] all = tt
begun-All-IsRanked (c ∷ calls) all = (begun-IsRanked c all.0, begun-All-IsRanked calls all.1)

-- Transfers, replays and relays' batches that run at once never come to a deadlock. However the
-- steps of a set of calls have interleaved since they began, with any of them ended early, if some
-- call is still running, then one of them can go ahead: it commits, takes its next lock, which no
-- other call holds, or claims its batch. It is asked of the accounts that each transfer sees that
-- their ids differ and have 128 bits.
pub no_deadlock :
    (calls : List Call) (ps : List Process)
    → All IsCall calls
    → Reaches (map begun calls) ps
    → any_running ps ≡ true
    → (ps' : List Process) × OneOf Advances [] ps ps'
no_deadlock calls ps are_calls reached runs =
    let ranked : All IsRanked ps = Reaches-IsRanked reached (begun-All-IsRanked calls are_calls) in
    elim (highest_goal ps) [
      | inl (none_runs, _) ↦ absurd (let bad : true ≡ false = sym runs ∙ none_runs in cc (bad))
      | inr (n, has, below) ↦ one-Advances n [] ps tt ranked tt below has
    ]
