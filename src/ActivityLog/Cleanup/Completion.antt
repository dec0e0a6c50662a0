-- ===== src/ActivityLog/Cleanup/Completion.antt =====
-- What the batches of internal/log/cleanup.go delete, and that their loop ends.
use graaa_golang_auth_api.Common.{
  ℕ, zero, suc, ◌+◌, ◌-◌, ◌<◌, ◌≡◌, ◌⊎◌, refl, ◌∙◌, ap, inl, inr, Bool, true, false, not, List, [],
  ◌∷◌, length, select, ltb, arith, Bool-cases,
}
use graaa_golang_auth_api.Redis.Interface.{Reply, ok, nil, failed}
use graaa_golang_auth_api.Database.{served, delete_where}
use graaa_golang_auth_api.ActivityLog.Cleanup.{
  ActivityLog, is_expired, delete_first, delete_batch, completed, Answered, delete_expired_logs,
  CleanupService, cleaned, force_cleanup, get_expired_log_count,
}

abbrev pub unexpired : ℕ → List ActivityLog → List ActivityLog
unexpired now rows = select (λ log. not (is_expired now log)) rows

abbrev pub expired : ℕ → List ActivityLog → ℕ
expired now rows = length (select (is_expired now) rows)

split_rows :
    (now : ℕ) (rows : List ActivityLog)
    → length rows ≡ expired now rows + length (unexpired now rows)
split_rows now [] = omega arith
split_rows now (x ∷ xs) = let rest = split_rows now xs in ground (arith, rest)

first-unexpired :
    (now limit : ℕ) (rows : List ActivityLog)
    → unexpired now (delete_first now limit rows) ≡ unexpired now rows
unfolding delete_first
first-unexpired now zero rows = refl
first-unexpired now (suc limit) [] = refl
first-unexpired now (suc limit) (x ∷ xs) =
    ground (arith, first-unexpired now limit xs, first-unexpired now (suc limit) xs)

first-expired :
    (now limit : ℕ) (rows : List ActivityLog)
    → expired now (delete_first now limit rows) ≡ expired now rows - limit
unfolding delete_first
first-expired now zero rows = omega arith
first-expired now (suc limit) [] = omega arith
first-expired now (suc limit) (x ∷ xs) =
    ground (arith, first-expired now limit xs, first-expired now (suc limit) xs)

all-unexpired :
    (now : ℕ) (rows : List ActivityLog) → delete_where (is_expired now) rows ≡ unexpired now rows
all-unexpired now [] = refl
all-unexpired now (x ∷ xs) = let rest = all-unexpired now xs in ground (arith, rest)

expired-unexpired : (now : ℕ) (rows : List ActivityLog) → expired now (unexpired now rows) ≡ 0
expired-unexpired now [] = refl
expired-unexpired now (x ∷ xs) = let rest = expired-unexpired now xs in ground (arith, rest)

unexpired-unexpired :
    (now : ℕ) (rows : List ActivityLog) → unexpired now (unexpired now rows) ≡ unexpired now rows
unexpired-unexpired now [] = refl
unexpired-unexpired now (x ∷ xs) = let rest = unexpired-unexpired now xs in ground (arith, rest)

batch-unexpired :
    (limited : Bool) (now limit : ℕ) (rows : List ActivityLog)
    → unexpired now (delete_batch limited now limit rows) ≡ unexpired now rows
unfolding delete_batch
batch-unexpired true now limit rows = first-unexpired now limit rows
batch-unexpired false now limit rows = rw (all-unexpired now rows) (unexpired-unexpired now rows)

-- A batch takes as many expired rows as the limit says, or all.
batch-expired :
    (limited : Bool) (now limit : ℕ) (rows : List ActivityLog)
    → (expired now (delete_batch limited now limit rows) ≡ expired now rows - limit)
      ⊎ (expired now (delete_batch limited now limit rows) ≡ 0)
unfolding delete_batch
batch-expired true now limit rows = inl (first-expired now limit rows)
batch-expired false now limit rows = inr (rw (all-unexpired now rows) (expired-unexpired now rows))

none_left : (now : ℕ) (rows : List ActivityLog) → expired now rows ≡ 0 → rows ≡ unexpired now rows
none_left now [] h = refl
none_left now (x ∷ xs) h = elim (Bool-cases (is_expired now x)) [
  | inl old ↦ absurd (ground (arith, old, h))
  | inr young ↦
      let rest = none_left now xs (ground (arith, young, h)) in ground (arith, young, rest)
]

-- With a positive batch size, whether or not the dialect limits a DELETE, and where every query is answered, the loop ends once it has one round
-- more than there are expired rows: it returns the number of the expired rows, and leaves the other
-- rows as they are, in their order.
pub delete_expired_logs-completes :
    (limited : Bool) (fuel : ℕ) (answered : Answered) (round batch_size now total : ℕ)
    (rows : List ActivityLog)
    → ((i : ℕ) → answered i ≡ true)
    → 0 < batch_size
    → expired now rows < fuel
    → delete_expired_logs limited fuel answered round batch_size now total rows
      ≡ (completed (total + expired now rows), unexpired now rows)
unfolding delete_expired_logs
delete_expired_logs-completes limited zero answered round batch_size now total rows up pos enough =
    absurd (omega arith)
delete_expired_logs-completes limited (suc fuel) answered round batch_size now total rows up pos
      enough =
    let rest = delete_batch limited now batch_size rows in
    let before = split_rows now rows in
    let after = split_rows now rest in
    let same = batch-unexpired limited now batch_size rows in
    let left = batch-expired limited now batch_size rows in
    let deleted : length rows - length rest ≡ expired now rows - expired now rest =
      omega (arith, before, after, ap length same) in
    elim (Bool-cases (ltb (length rows - length rest) batch_size)) [
      | inl last ↦
          let none_expired : expired now rest ≡ 0 = ground (arith, last, deleted, left) in
          let whole : rest ≡ unexpired now rows = none_left now rest none_expired ∙ same in
          let count : total + (length rows - length rest) ≡ total + expired now rows =
            omega (arith, deleted, none_expired) in
          rw (up round) (rw last (cc (count, whole)))
      | inr more ↦
          let fewer : expired now rest < fuel = ground (arith, more, deleted, left, enough, pos) in
          let later =
            delete_expired_logs-completes limited fuel answered (suc round) batch_size now
              (total + (length rows - length rest)) rest up pos fewer in
          let count : total + (length rows - length rest) + expired now rest
              ≡ total + expired now rows =
            omega (arith, deleted, left) in
          rw (up round) (rw more (later ∙ cc (count, same)))
    ]

unfoldable counted_value : Reply ℕ → ℕ
counted_value (ok n) = n
counted_value nil = 0
counted_value failed = 0

-- ForceCleanup, where no pass runs and every query is answered, deletes the expired rows and reports
-- their number, which is the one that GetExpiredLogCount gives before; after it that number is 0.
pub force_cleanup_effect :
    (limited : Bool) (fuel : ℕ) (answered : Answered) (now : ℕ) (cs : CleanupService)
    (rows : List ActivityLog)
    → ((i : ℕ) → answered i ≡ true)
    → 0 < cs.cleanup_batch_size
    → expired now rows < fuel
    → cs.is_running ≡ false
    → (n : ℕ) → get_expired_log_count served now rows ≡ ok n
    → ((force_cleanup limited fuel answered now cs rows).0 ≡ cleaned n (cs.total_cleaned + n))
      × (get_expired_log_count served now (force_cleanup limited fuel answered now cs rows).1.1
          ≡ ok 0)
unfolding force_cleanup get_expired_log_count counted_value
force_cleanup_effect limited fuel answered now cs rows up pos enough idle n counted =
    let pass =
      delete_expired_logs-completes limited fuel answered 0 cs.cleanup_batch_size now 0 rows up pos
        enough in
    let same : 0 + expired now rows ≡ n = omega (arith, ap counted_value counted) in
    let none_after = expired-unexpired now rows in rw (idle, pass) (cc (same), cc (none_after))
