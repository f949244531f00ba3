-- ===== src/Tests/Execution.antt =====
-- The theorems on `Execute` and on reading rows, at a server that counts the writes.
use db_crawler.Classify.{is_read_only, classify, utility_reads}
use db_crawler.Classify.Leading.{first_keyword, is_only_comments}
use db_crawler.Prelude.Int.{pos}
use db_crawler.Prelude.{ℕ, ◌≡◌, refl, List, [], inl, inr}
use db_crawler.Query.Execute.Reports.{
  HasWrite, first_write, Reports, execute_refused, execute-Reports,
}
use db_crawler.Query.Execute.Safety.{KeptByReads, execute-keeps}
use db_crawler.Query.Execute.Tracking.{tracked_behind, execute-untracks}
use db_crawler.Query.Execute.{execute, read_only}
use db_crawler.Query.Rows.Cap.{Capped, read_rows-Capped}
use db_crawler.Query.Rows.{read_rows}
use db_crawler.Query.{Result, QueryOptions}
use db_crawler.Session.{find, track}
use db_crawler.Split.{split_statements}
use db_crawler.Tests.Base.{plain, session, server, options, formats, two_rows}
use db_crawler.Text.{codes, one_of}

pub three_writes : KeptByReads server (λ (n : ℕ). n ≡ 3)
three_writes n sql args h e = (rw h e, rw h e)

execute-keeps_example :
    (execute server 3 session 7 (codes "SELECT 1; DELETE FROM t") [] options).0 ≡ 3
execute-keeps_example =
    execute-keeps server (λ (n : ℕ). n ≡ 3) three_writes 3 session 7
      (codes "SELECT 1; DELETE FROM t") [] options refl refl

pub has_write : HasWrite (split_statements session.engine (codes "A;"))
unfolding split_statements is_only_comments is_read_only classify one_of first_keyword utility_reads
has_write = inl refl

execute_refused_example :
    execute server 3 session 7 (codes "A;") [] options
    ≡ (3, session, inl (read_only (first_write (split_statements session.engine (codes "A;")))))
execute_refused_example = execute_refused server 3 session 7 (codes "A;") options refl has_write

-- The session has an operation of the call's id already.
abbrev named : QueryOptions
named = record options { op_id = codes "op-1" }

execute-untracks_example :
    find
      (codes "op-1")
      (execute server 3 (track session (codes "op-1") 6) 7 (codes "SELECT 1") [] named).1.running
    ≡ tracked_behind server
        (track session (codes "op-1") 6)
        named
        (codes "op-1")
        (execute server 3 (track session (codes "op-1") 6) 7 (codes "SELECT 1") [] named).2
execute-untracks_example =
    execute-untracks server 3 (track session (codes "op-1") 6) 7 (codes "SELECT 1") [] named
      (codes "op-1")

read_rows-Capped_example : Capped (pos 1) two_rows (read_rows formats two_rows (pos 1))
read_rows-Capped_example = read_rows-Capped (pos 1) two_rows refl tt

execute-Reports_example :
    (rs : List Result) × ((execute server 3 session 7 (codes "SHOW A;") [] options).2 ≡ inr rs)
    × Reports options (split_statements session.engine (codes "SHOW A;")) rs
unfolding split_statements is_only_comments is_read_only classify one_of first_keyword utility_reads
execute-Reports_example =
    execute-Reports server 3 session 7 (codes "SHOW A;") [] options refl refl (inr (refl, tt))
