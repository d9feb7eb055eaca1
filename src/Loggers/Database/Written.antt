-- ===== src/Loggers/Database/Written.antt =====
-- What closing a failed test case leaves in the database (boofuzz/fuzz_logger_db.py).
use boofuzz.Base.{
  ◌+◌, ◌≤◌, ◌<◌, ◌≡◌, refl, sym, subst, ◌⊎◌, inl, inr, Bool, true, false, List, [], ◌∷◌, ◌++◌, some,
  ltb, leb, arith, Bool-cases, ltb→lt, All, Elem, Elem-append_cases, All-Elem, append-nil,
}
use boofuzz.Base.Text.{Text}
use boofuzz.Loggers.{close_test_case}
use boofuzz.Loggers.Database.{
  Row, index_of, FuzzLoggerDb, kept_queue, written, flush, write_queue, receive_call,
}
use boofuzz.Loggers.Database.Queued.{HasCase, IsReady, drop_old-DropsOld}

-- A row that is recent enough, where there is a limit.
abbrev pub IsRecent : FuzzLoggerDb → Row → Type 0
IsRecent d r = (d.max_len ≡ 0) ⊎ (d.current < index_of r + d.max_len)

-- The rows that waited and are recent stand in the database as they were logged.
abbrev pub RecordsFailure : FuzzLoggerDb → FuzzLoggerDb → Type 0
RecordsFailure d d' =
    (kept : List Row) × (d'.rows ≡ d.rows ++ kept)
    × (d'.queue ≡ [])
    × ((r : Row) → Elem r d.queue → IsRecent d r → Elem r kept)

flush_failed :
    (force : Bool) (kept : List Row) (d : FuzzLoggerDb)
    → d.fail_detected ≡ true
    → ((flush force kept d).rows ≡ d.rows ++ kept) × ((flush force kept d).queue ≡ [])
unfolding flush written
flush_failed true kept d h = rw h (refl, refl)
flush_failed false kept d h = rw h (refl, refl)

-- When a failure was logged, closing the test case succeeds, empties the queue and adds rows to the
-- database: each row of the last num_log_cases test cases that waited is among them, unabridged.
pub close_test_case-RecordsFailure :
    (time : Text) (d : FuzzLoggerDb)
    → IsReady d
    → d.fail_detected ≡ true
    → (d' : FuzzLoggerDb) × (receive_call (time, close_test_case) d ≡ some d') × RecordsFailure d d'
unfolding receive_call write_queue kept_queue
close_test_case-RecordsFailure time d h failed = split d.queue refl h
  where
    split :
        (q : List Row)
        → d.queue ≡ q
        → (d.queue ≡ []) ⊎ HasCase d.current d.queue
        → (d' : FuzzLoggerDb) × (write_queue false q d ≡ some d') × RecordsFailure d d'
    split [] e k =
        (d, refl, ([], sym (append-nil d.rows), e, λ r m recent. absurd (subst (Elem r) e m)))
    split (r ∷ q) e (inl none_left) = absurd (cc)
    split (r ∷ q) e (inr has) = elim (Bool-cases (ltb 0 d.max_len)) [
      | inl limited ↦
          let (kept, ran, (old, all, olds, still)) =
            drop_old-DropsOld d.current d.max_len d.queue (ltb→lt 0 d.max_len limited) has in
          let (rows, emptied) = flush_failed (leb d.max_len 0) kept d failed in
          (
            flush (leb d.max_len 0) kept d,
            rw (limited, ran) refl,
            (kept, rows, emptied, recent_kept kept old all olds (ltb→lt 0 d.max_len limited)),
          )
      | inr unlimited ↦
          let (rows, emptied) = flush_failed (leb d.max_len 0) d.queue d failed in
          (
            flush (leb d.max_len 0) d.queue d,
            rw unlimited refl,
            (d.queue, rows, emptied, λ r m recent. m),
          )
    ]
      where
        recent_kept :
            (kept old : List Row)
            → d.queue ≡ old ++ kept
            → All (λ r. index_of r + d.max_len ≤ d.current) old
            → 0 < d.max_len
            → (r : Row) → Elem r d.queue
            → IsRecent d r
            → Elem r kept
        recent_kept kept old all olds positive r m (inl zero_len) = absurd (omega arith)
        recent_kept kept old all olds positive r m (inr recent) =
            elim (Elem-append_cases r old kept (subst (Elem r) all m)) [
              | inl dropped ↦
                  let age : index_of r + d.max_len ≤ d.current =
                    All-Elem (λ x. index_of x + d.max_len ≤ d.current) r old olds dropped in
                  absurd (omega arith)
              | inr here ↦ here
            ]
