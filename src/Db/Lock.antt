-- ===== src/Db/Lock.antt =====
-- ii/db.go: the recursive lock that keeps ii-tool and ii-node apart, a directory. What another process
-- does is a parameter: whether each try to make the directory succeeds. A Lock whose tries all fail finds
-- the directory of another process, which is then still there at the Unlock.
use ii_go.Base.{
  ltb, if◌then◌else◌, ℕ, zero, suc, ◌+◌, ◌-◌, ◌≡◌, refl, sym, ap, ◌∙◌, Bool, true, false, arith,
}

-- The directory at db.LockPath(): there is none, or this process made it, or another one.
pub data Dir : Type 0 where
  no_dir own_dir other_dir : Dir

-- db.LockDepth, and the directory.
pub record Lock : Type 0 where
  pub depth : ℕ
  pub dir : Dir

-- The tries, one a second.
unfoldable pub try_mkdir : ℕ → (ℕ → Bool) → Bool
try_mkdir zero free = false
try_mkdir (suc n) free = let later = try_mkdir n free in if free (suc n) then true else later

unfoldable pub dir_of : Bool → Dir
dir_of made = if made then own_dir else other_dir

-- Lock: a lock that is held is only counted. The depth is counted also if all tries fail.
unfoldable pub lock : (ℕ → Bool) → Lock → Bool × Lock
lock free l =
    let made = try_mkdir 16 free in
    if ltb 0 l.depth
    then (true, record l { depth = l.depth + 1 })
    else (made, record { depth = l.depth + 1; dir = dir_of made })

-- Unlock, which callers pair with a Lock: the last one removes the directory, whoever made it.
unfoldable pub unlock : Lock → Lock
unlock l =
    if ltb 1 l.depth
    then record l { depth = l.depth - 1 }
    else record { depth = l.depth - 1; dir = no_dir }

-- As many calls of Lock.
unfoldable pub locks : ℕ → (ℕ → Bool) → Lock → Lock
locks zero free l = l
locks (suc n) free l = locks n free (lock free l).1

unfoldable pub unlocks : ℕ → Lock → Lock
unlocks zero l = l
unlocks (suc n) l = unlocks n (unlock l)

lock_again :
    (d : ℕ) (free : ℕ → Bool) (h : Dir)
    → (lock free (record { depth = suc d; dir = h })).1 ≡ record { depth = suc (suc d); dir = h }
unfolding lock
lock_again d free h =
    let deep : ltb 0 (suc d) ≡ true = ground arith in
    let next : suc d + 1 ≡ suc (suc d) = omega arith in rw (deep, next)

unlock_deep :
    (d : ℕ) (h : Dir)
    → unlock (record { depth = suc (suc d); dir = h }) ≡ record { depth = suc d; dir = h }
unfolding unlock
unlock_deep d h =
    let deep : ltb 1 (suc (suc d)) ≡ true = ground arith in
    let next : suc (suc d) - 1 ≡ suc d = omega arith in rw (deep, next)

locks_lem :
    (n d : ℕ) (free : ℕ → Bool) (h : Dir)
    → locks n free (record { depth = suc d; dir = h }) ≡ record { depth = suc d + n; dir = h }
unfolding locks lock
locks_lem zero d free h =
    let same : suc d + 0 ≡ suc d = omega arith in ap (λ k. record { depth = k; dir = h }) (sym same)
locks_lem (suc n) d free h =
    let more : suc (suc d) + n ≡ suc d + suc n = omega arith in
    ap (locks n free) (lock_again d free h)
    ∙ locks_lem n (suc d) free h
    ∙ ap (λ k. record { depth = k; dir = h }) more

unlocks_lem :
    (n d : ℕ) (h : Dir)
    → unlocks n (record { depth = suc d + n; dir = h }) ≡ record { depth = suc d; dir = h }
unfolding unlocks
unlocks_lem zero d h =
    let same : suc d + 0 ≡ suc d = omega arith in ap (λ k. record { depth = k; dir = h }) same
unlocks_lem (suc n) d h =
    let more : suc d + suc n ≡ suc (suc (d + n)) = omega arith in
    let less : suc (d + n) ≡ suc d + n = omega arith in
    ap (λ k. unlocks n (unlock (record { depth = k; dir = h }))) more
    ∙ ap (unlocks n) (unlock_deep (d + n) h ∙ ap (λ k. record { depth = k; dir = h }) less)
    ∙ unlocks_lem n d h

unlocks-suc : (n : ℕ) (l : Lock) → unlocks (suc n) l ≡ unlock (unlocks n l)
unfolding unlocks
unlocks-suc zero l = refl
unlocks-suc (suc n) l = unlocks-suc n (unlock l)

-- After n + 1 calls of Lock and n of Unlock, the lock is as the first call left it, with depth 1 and with the
-- directory of this process if one of the 16 tries made it, and of another one otherwise. The next Unlock removes
-- the directory in both cases.
pub unlocks-locks :
    (n : ℕ) (free : ℕ → Bool) (before : Dir)
    → (unlocks n (locks (suc n) free (record { depth = 0; dir = before }))
        ≡ record { depth = 1; dir = dir_of (try_mkdir 16 free) })
      × (unlocks (suc n) (locks (suc n) free (record { depth = 0; dir = before }))
          ≡ record { depth = 0; dir = no_dir })
unlocks-locks n free before =
    let dir = dir_of (try_mkdir 16 free) in
    let step : locks (suc n) free (record { depth = 0; dir = before })
        ≡ locks n free (record { depth = 1; dir = dir }) =
      unfold locks in ap (locks n free) (unfold lock in refl) in
    let all : locks (suc n) free (record { depth = 0; dir = before })
        ≡ record { depth = 1 + n; dir = dir } =
      step ∙ locks_lem n 0 free dir in
    let last : unlock (record { depth = 1; dir = dir }) ≡ record { depth = 0; dir = no_dir } =
      unfold unlock in refl in
    (
      ap (unlocks n) all ∙ unlocks_lem n 0 dir,
      ap (unlocks (suc n)) all ∙ unlocks-suc n _ ∙ ap unlock (unlocks_lem n 0 dir) ∙ last,
    )
