-- ===== src/JobStore/Samples.antt =====
-- The theorems of the job store at concrete states and calls.
use Prim.Native.Nat.{min}
use dygo.Base.{
  length, select, sym, ◌∙◌, ◌<◌, ℕ, ◌-◌, ◌*◌, ◌/◌, ◌^◌, ◌≤◌, ◌≡◌, refl, List, [], ◌∷◌, false, some,
  none, codes, text_eq, ok, Memᴰ, All, trim_space, arith,
}
use dygo.JobStore.Defs.{
  is_claimable, is_expired, JobRecord, load_job, Execution, Db, queued, running, enqueue, claim,
  recover_expired, owns, normalize_queue_names, retry_delay, capped_delay,
}
use dygo.JobStore.Backoff.{capped_delay-eq-min, retry_delay_bounds}
use dygo.JobStore.Schedule.{no_others, perform, perform_all}
use dygo.JobStore.Invariants.{IsSound, perform_all-IsSound, terminal_final}
use dygo.JobStore.Fencing.{IsRefused, stale_claim-IsRefused, complete_settles_once}
use dygo.JobStore.Recovery.{recover_expired_clears}
use dygo.JobStore.Keys.{Answers, enqueue_keyed}
use dygo.JobStore.Idempotency.{HasJobIds, enqueue_once}
use dygo.JobStore.Progress.{HasPolicy, recover_expired-ok}
use dygo.JobStore.Supply.{HasRun, claim_supplies}
use dygo.JobStore.Leases.{IsHandedOut, IsOwned}
use dygo.JobStore.Handout.{claim_hands_out}
use dygo.JobStore.SampleData.{
  three_times, rt, mail_job, start, keyed, enqueue_mail, claim_mail, claimed_once, program,
  statuses, three_calls, running_row, done_row, with_row, claim_of_a, stolen_row, recovered,
  live_row, two_rows, two_recovered, second_claim, queued_mail,
}

claimed_once_rows : statuses claimed_once.executions ≡ (running, 1) ∷ []
unfolding program
claimed_once_rows = refl

start-IsSound : IsSound start
start-IsSound = record { ordered = tt; rows_ok = tt }

perform_all-IsSound_example : IsSound (perform_all rt three_calls start)
perform_all-IsSound_example = perform_all-IsSound rt three_calls start start-IsSound

terminal_final_example : done_row ≡ done_row
unfolding program
terminal_final_example =
    terminal_final rt (claim_mail 200 (codes "b") ∷ []) (with_row done_row) done_row done_row
      (tt, omega arith, tt) (Memᴰ.head refl) refl (Memᴰ.head refl) refl

stale_claim-IsRefused_example :
    IsRefused rt claim_of_a (perform_all rt three_calls (with_row stolen_row))
unfolding owns text_eq
stale_claim-IsRefused_example =
    stale_claim-IsRefused rt three_calls (with_row stolen_row) claim_of_a stolen_row
      (tt, omega arith, tt) (Memᴰ.head refl) refl (omega arith) refl

complete_settles_once_example :
    IsRefused rt claim_of_a (perform_all rt three_calls (with_row done_row))
unfolding program
complete_settles_once_example =
    complete_settles_once rt three_calls claim_of_a [] 105 (with_row running_row)
      (with_row done_row) (tt, omega arith, tt) refl

recover_expired_clears_example : 200 < 210
unfolding program
recover_expired_clears_example =
    recover_expired_clears rt (λ _. false) (λ _ _. 0) (codes "expired") 200 1 two_rows two_recovered
      live_row 210 ((omega arith, tt), omega arith, (tt, omega arith, tt)) refl
      (Memᴰ.tail (Memᴰ.head refl)) refl refl refl

recovered_rows : statuses recovered.executions ≡ (queued, 1) ∷ []
unfolding program
recovered_rows = refl

claim_hands_out_example :
    All
      (IsHandedOut rt recovered
        (λ _. false)
        (normalize_queue_names (codes "default" ∷ []))
        (codes "b")
        300)
      (second_claim ∷ [])
    × All
        (IsOwned (perform rt (claim_mail 300 (codes "b")) recovered).executions)
        (second_claim ∷ [])
    × (1 ≤ 5)
unfolding program
claim_hands_out_example =
    claim_hands_out rt recovered 300 (codes "b") (λ _. false) (codes "default" ∷ []) 5
      (second_claim ∷ []) (perform rt (claim_mail 300 (codes "b")) recovered) (tt, omega arith, tt)
      refl

retry_delay_bounds_example :
    (d : ℕ) × (retry_delay rt (λ _. 0) (some three_times) 4 ≡ ok d)
    × (1 ≤ d)
    × (min 300 (10 * 2 ^ (4 - 1)) / 2 ≤ d)
    × (d ≤ min 300 (10 * 2 ^ (4 - 1)))
unfolding text_eq
retry_delay_bounds_example =
    retry_delay_bounds rt (λ _. 0) three_times 4 9 299 (λ n h. h) refl refl (omega arith)

capped_delay-eq-min_example : capped_delay 10 300 7 ≡ min 300 (10 * 2 ^ (7 - 1))
capped_delay-eq-min_example = capped_delay-eq-min 10 300 7 (omega arith)

start-HasJobIds : HasJobIds start
start-HasJobIds i j (Memᴰ.head a) (Memᴰ.head b) e = a ∙ sym b
start-HasJobIds i j (Memᴰ.tail m) k e = elim m [ ]
start-HasJobIds i j (Memᴰ.head a) (Memᴰ.tail m) e = elim m [ ]

enqueue_once_example :
    (x : Execution) × (enqueue rt no_others []
        (some (codes "y"))
        900
        (codes "crm")
        (codes "mail")
        []
        keyed
        (perform rt enqueue_mail start)
      ≡ (ok x, perform rt enqueue_mail start))
    × (x.id ≡ queued_mail.id)
unfolding program
enqueue_once_example =
    enqueue_once rt [] (codes "crm") (codes "mail") [] keyed (some (codes "x")) (some (codes "y"))
      100 900 start (perform rt enqueue_mail start) queued_mail start-HasJobIds refl refl

running_row-HasPolicy : HasPolicy rt running_row
unfolding program
running_row-HasPolicy = (some three_times, refl, (10, refl, 300, refl))

recover_expired-ok_example :
    (db' : Db) × (recover_expired rt (λ _. false) (λ _ _. 0) (codes "expired") 200 two_rows
      ≡ (ok (length (select (is_expired (λ _. false) 200) two_rows.executions)), db'))
recover_expired-ok_example =
    recover_expired-ok rt (λ _. false) (λ _ _. 0) (codes "expired") 200 two_rows
      (running_row-HasPolicy, (running_row-HasPolicy, tt))

-- Two executions that wait, of which a worker asks for one.
abbrev waiting : Db
waiting = record start {
  executions =
      record running_row { status = queued; locked_by = none; locked_until = none }
      ∷ record live_row { status = queued; locked_by = none; locked_until = none }
      ∷ [];
  next_id = 3;
}

running_row-HasRun : HasRun rt waiting running_row
unfolding program
running_row-HasRun = (mail_job, refl, 10, refl, some three_times, refl)

claim_supplies_example :
    (es : List Execution) × (db' : Db) × (claim rt
        (λ _. false)
        (codes "default" ∷ [])
        1
        (codes "b")
        300
        waiting
      ≡ (ok es, db'))
    × (length es
        ≡ min 1 (
            length (
              select
                (is_claimable waiting
                  (λ _. false)
                  (normalize_queue_names (codes "default" ∷ []))
                  300)
                waiting.executions)))
unfolding program
claim_supplies_example =
    claim_supplies rt waiting (λ _. false) (codes "default" ∷ []) 1 (codes "b") 300 refl refl refl
      (running_row-HasRun, (running_row-HasRun, tt))

-- Between the lookup and the INSERT another call inserts a row under the key.
enqueue_keyed_example :
    (j : JobRecord) × (load_job start [] (codes "crm") (codes "mail") ≡ ok j)
    × Answers
        (perform rt enqueue_mail)
        start
        j.row.id
        (trim_space keyed.idempotency_key)
        queued_mail
        (perform rt enqueue_mail start)
unfolding program
enqueue_keyed_example =
    enqueue_keyed rt [] (codes "crm") (codes "mail") [] keyed (perform rt enqueue_mail)
      (some (codes "y")) 101 start (perform rt enqueue_mail start) queued_mail refl refl
