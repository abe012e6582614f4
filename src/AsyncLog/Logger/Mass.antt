-- ===== src/AsyncLog/Logger/Mass.antt =====
-- The mass completions of lib/AsyncOperationLogger.cpp, with their big buffer and without.
use bdbmsgstore.Prelude.{
  ℕ, ◌+◌, ◌≡◌, ap, fun_ext, Bool, Option, some, List, [], ◌∷◌, ◌++◌, append_assoc, arith, get_or,
  length, ==-refl,
}
use bdbmsgstore.PendingOperation.{PendingOperationId}
use bdbmsgstore.AsyncLog.Logger.{LogFiles, AsyncOperationLogger, MassContext, set_file, write}

-- What the current file holds, `none` if it is not there.
abbrev pub current : LogFiles → Option (List ℕ)
current l = l.files l.index

set_file-set_file :
    (k : ℕ) (a b : Option (List ℕ)) (files : ℕ → Option (List ℕ))
    → set_file k b (set_file k a files) ≡ set_file k b files
set_file-set_file k a b files = fun_ext λ j. ground arith

-- Two writes in a row are one.
pub write-write : (a b : List ℕ) (l : LogFiles) → write b (write a l) ≡ write (a ++ b) l
write-write a b l =
    rw (==-refl l.index, append_assoc)
      (ap (λ f. record l { files = f })
        (set_file-set_file l.index _ (some (get_or (l.files l.index) [] ++ (a ++ b))) l.files))

-- The records of a mass completion, each after what the others append before it.
abbrev pub woven : (ℕ → ℕ → List ℕ) → (ℕ → List ℕ) → List PendingOperationId → List ℕ
woven buff others [] = []
woven buff others ((pid, qid) ∷ ids) =
    (others (length ids + 1) ++ buff pid qid) ++ woven buff others ids

abbrev pub to_enqueues : List ℕ → AsyncOperationLogger → AsyncOperationLogger
to_enqueues bytes l = record l { enqueue_log = write bytes l.enqueue_log }

abbrev pub to_dequeues : List ℕ → AsyncOperationLogger → AsyncOperationLogger
to_dequeues bytes l = record l { dequeue_log = write bytes l.dequeue_log }

-- The others append to the log in question, before each turn on the mutex.
abbrev pub amid : (ℕ → Bool) → (ℕ → List ℕ) → MassContext
amid malloc others = record {
  malloc = malloc;
  before_enqueues = λ k. to_enqueues (others k);
  before_dequeues = λ k. to_dequeues (others k);
}
