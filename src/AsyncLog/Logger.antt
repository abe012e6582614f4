-- ===== src/AsyncLog/Logger.antt =====
-- The state of an `AsyncOperationLogger` and the operations that append records to its files
-- (lib/AsyncOperationLogger.cpp). Each of the two logs has its own mutex, which every operation holds
-- while it writes, so a write is one step: an operation of one record is one, and a mass completion
-- one with its big buffer, and one for each record without. A stream that was never told to throw does not, so
-- the branches that return -1 are not reached: the result is the index of the file.
pub mod Mass
use mathlib.Core.List.{foldl}
use bdbmsgstore.Prelude.{
  ℕ, zero, suc, ◌+◌, ◌*◌, Bool, true, false, ◌&&◌, not, Option, none, some, List, [], ◌∷◌, ◌++◌,
  ◌==◌, if◌then◌else◌, get_or, length,
}
use bdbmsgstore.Prelude.Int.{ℤ, pos, negsuc}
use bdbmsgstore.PendingOperation.{PendingOperationId}
use bdbmsgstore.AsyncLog.Format.{
  dequeue_start_buff, dequeue_complete_buff, enqueue_start_buff, enqueue_complete_buff,
}

-- The files of one log: those with the indices 0 and 1, and the cleaner's temporary one. The open
-- stream appends to the file with the current index.
pub record LogFiles : Type 0 where
  pub index : ℕ
  pub files : ℕ → Option (List ℕ)
  pub tmp : Option (List ℕ)

pub record AsyncOperationLogger : Type 0 where
  pub enqueue_log : LogFiles
  pub dequeue_log : LogFiles

abbrev pub set_file : ℕ → Option (List ℕ) → (ℕ → Option (List ℕ)) → ℕ → Option (List ℕ)
set_file k content files j = if j == k then content else files j

-- open(buildLogName(k), out | app | binary), after which the stream appends to that file
abbrev pub open_append : ℕ → LogFiles → LogFiles
open_append k l = record l { index = k; files = set_file k (some (get_or (l.files k) [])) l.files }

-- remove(buildLogName(k))
abbrev pub remove_file : ℕ → LogFiles → LogFiles
remove_file k l = record l { files = set_file k none l.files }

-- write and flush
abbrev pub write : List ℕ → LogFiles → LogFiles
write bytes l = record l {
  files = set_file l.index (some (get_or (l.files l.index) [] ++ bytes)) l.files;
}

-- The constructor opens the files with index 0 and keeps what is in them.
unfoldable pub open_logger : LogFiles → LogFiles → AsyncOperationLogger
open_logger enq deq = record { enqueue_log = open_append 0 enq; dequeue_log = open_append 0 deq }

unfoldable pub log_dequeue_start : ℕ → ℕ → AsyncOperationLogger → ℤ × AsyncOperationLogger
unfolding dequeue_start_buff
log_dequeue_start pid qid l = (
  pos l.dequeue_log.index,
  record l { dequeue_log = write (dequeue_start_buff pid qid) l.dequeue_log },
)

unfoldable pub log_dequeue_complete : ℕ → ℕ → AsyncOperationLogger → ℤ × AsyncOperationLogger
unfolding dequeue_complete_buff
log_dequeue_complete pid qid l = (
  pos l.dequeue_log.index,
  record l { dequeue_log = write (dequeue_complete_buff pid qid) l.dequeue_log },
)

unfoldable pub log_enqueue_start :
    ℕ → ℕ → List ℕ → ℕ → Bool → AsyncOperationLogger → ℤ × AsyncOperationLogger
unfolding enqueue_start_buff
log_enqueue_start pid qid buff buffsize transient l = (
  pos l.enqueue_log.index,
  record l {
    enqueue_log = write (enqueue_start_buff pid qid buff buffsize transient) l.enqueue_log;
  },
)

unfoldable pub log_enqueue_complete : ℕ → ℕ → AsyncOperationLogger → ℤ × AsyncOperationLogger
unfolding enqueue_complete_buff
log_enqueue_complete pid qid l = (
  pos l.enqueue_log.index,
  record l { enqueue_log = write (enqueue_complete_buff pid qid) l.enqueue_log },
)

-- The big buffer of a mass completion, and the loop that takes its place without the buffer.
abbrev pub mass_buff : (ℕ → ℕ → List ℕ) → List PendingOperationId → List ℕ
mass_buff buff [] = []
mass_buff buff ((pid, qid) ∷ ids) = buff pid qid ++ mass_buff buff ids

-- What a mass completion meets: for which sizes memory can be had, and what other threads do to the
-- logs before it takes the mutex with so many completions left to write.
pub record MassContext : Type 0 where
  pub malloc : ℕ → Bool
  pub before_enqueues : ℕ → AsyncOperationLogger → AsyncOperationLogger
  pub before_dequeues : ℕ → AsyncOperationLogger → AsyncOperationLogger

-- `log` takes the mutex and gives it back for each record.
unfoldable pub each_complete :
    (ℕ → ℕ → AsyncOperationLogger → ℤ × AsyncOperationLogger)
    → (ℕ → AsyncOperationLogger → AsyncOperationLogger)
    → List PendingOperationId
    → ℤ
    → AsyncOperationLogger
    → ℤ × AsyncOperationLogger
each_complete log before [] ret l = (ret, l)
each_complete log before ((pid, qid) ∷ ids) ret l =
    let (ret', l') = log pid qid (before (length ids + 1) l) in each_complete log before ids ret' l'

abbrev write_dequeues : List PendingOperationId → AsyncOperationLogger → ℤ × AsyncOperationLogger
write_dequeues pid_list l = (
  pos l.dequeue_log.index,
  record l { dequeue_log = write (mass_buff dequeue_complete_buff pid_list) l.dequeue_log },
)

abbrev write_enqueues : List PendingOperationId → AsyncOperationLogger → ℤ × AsyncOperationLogger
write_enqueues pid_list l = (
  pos l.enqueue_log.index,
  record l { enqueue_log = write (mass_buff enqueue_complete_buff pid_list) l.enqueue_log },
)

-- A list is short enough for its bytes to be counted by an `int`.
module _ (mass : MassContext) where
  unfoldable pub log_mass_dequeue_complete :
      List PendingOperationId → AsyncOperationLogger → ℤ × AsyncOperationLogger
  unfolding each_complete log_dequeue_complete
  log_mass_dequeue_complete pid_list l =
      if mass.malloc (17 * length pid_list)
      then write_dequeues pid_list (mass.before_dequeues (length pid_list) l)
      else each_complete log_dequeue_complete mass.before_dequeues pid_list (pos 0) l

  unfoldable pub log_mass_enqueue_complete :
      List PendingOperationId → AsyncOperationLogger → ℤ × AsyncOperationLogger
  unfolding each_complete log_enqueue_complete
  log_mass_enqueue_complete pid_list l =
      if mass.malloc (17 * length pid_list)
      then write_enqueues pid_list (mass.before_enqueues (length pid_list) l)
      else each_complete log_enqueue_complete mass.before_enqueues pid_list (pos 0) l

  abbrev is_failure : ℤ → Bool
  is_failure (negsuc zero) = true
  is_failure other = false

  unfoldable pub log_mass_enqueue_dequeue_complete :
      List PendingOperationId → AsyncOperationLogger → Bool × AsyncOperationLogger
  unfolding log_mass_enqueue_complete log_mass_dequeue_complete
  log_mass_enqueue_dequeue_complete pid_list l =
      let (enq, l') = log_mass_enqueue_complete pid_list l in
      let (deq, l'') = log_mass_dequeue_complete pid_list l' in
      (not (is_failure enq) && not (is_failure deq), l'')
