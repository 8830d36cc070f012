-- ===== src/Log/Spool/Calls.antt =====
-- The calls on a spool in any order, from its creation (rust/worker/src/log_spool.rs).
use distributed_execution.Base.{
  ℕ, ◌≡◌, inl, inr, Option, List, [], ◌∷◌, Bytes, Result, ok, err, arith, Result-cases,
}
use distributed_execution.Control.{LogStream}
use distributed_execution.Log.Format.{LogSegment}
use distributed_execution.Log.Spool.{
  LogSpool, StoredSegment, SpoolError, Metadata, create, store, read, remove_read, remove,
}
use distributed_execution.Log.Spool.Accounting.{IsBalanced, store-IsBalanced, remove_frees}

-- A call that changes the spool, with what the file system answers.
pub data SpoolCall : Type 0 where
  stores : LogStream → LogSegment → Result ℕ (Unit {0}) → SpoolCall
  removes : StoredSegment → Result ℕ Metadata → (owner : ℕ) → Result ℕ (Unit {0}) → SpoolCall

unfoldable pub work : List SpoolCall → LogSpool → LogSpool
work [] s = s
work (stores stream segment published ∷ cs) s = work cs (store s stream segment published).1
work (removes entry opened owner removed ∷ cs) s = work cs (remove s entry opened owner removed).1

create-IsBalanced :
    (file_name : Option Bytes) (root : Bytes) (cap : ℕ) (made : Result SpoolError (Unit {0}))
    (s : LogSpool)
    → create file_name root cap made ≡ ok s
    → IsBalanced s
unfolding create
create-IsBalanced file_name root cap made s e = ground arith

remove-IsBalanced :
    (s : LogSpool) (entry : StoredSegment) (opened : Result ℕ Metadata) (owner : ℕ)
    (removed : Result ℕ (Unit {0}))
    → IsBalanced s
    → IsBalanced (remove s entry opened owner removed).1
unfolding remove remove_read
remove-IsBalanced s entry opened owner (ok gone) h =
    elim (Result-cases (read s entry opened owner)) [
      | inl (_, r) ↦ (remove_frees s entry opened owner h r).0
      | inr (x, r) ↦ rw (remove, r) h
    ]
remove-IsBalanced s entry opened owner (err kind) h =
    elim (Result-cases (read s entry opened owner)) [
      | inl (_, r) ↦
          rw (remove, r)
            (record {
              counted = h.counted;
              within_cap = h.within_cap;
              cap_high = h.cap_high;
              few_entries = h.few_entries;
              distinct = h.distinct;
            })
      | inr (x, r) ↦ rw (remove, r) h
    ]

work-IsBalanced : (cs : List SpoolCall) (s : LogSpool) → IsBalanced s → IsBalanced (work cs s)
unfolding work
work-IsBalanced [] s h = h
work-IsBalanced (stores stream segment published ∷ cs) s h =
    work-IsBalanced cs _ (store-IsBalanced s stream segment published h)
work-IsBalanced (removes entry opened owner removed ∷ cs) s h =
    work-IsBalanced cs _ (remove-IsBalanced s entry opened owner removed h)

-- After any stores and removals on a new spool, whatever the file system answers, the books are
-- right: the bytes used are those of the entries and within the cap, which is 256 MiB at most;
-- there are 1024 entries at most, and no name twice.
pub work-create-IsBalanced :
    (file_name : Option Bytes) (root : Bytes) (cap : ℕ) (made : Result SpoolError (Unit {0}))
    (s : LogSpool) (cs : List SpoolCall)
    → create file_name root cap made ≡ ok s
    → IsBalanced (work cs s)
work-create-IsBalanced file_name root cap made s cs e =
    work-IsBalanced cs s (create-IsBalanced file_name root cap made s e)
