-- ===== src/Provider/Recovery/Tests.antt =====
-- Concrete recoveries of lib/BdbStoreProvider.cpp.
use native.Mathlib.Nat.{mod-one}
use bdbmsgstore.Prelude.{ℕ, ◌≡◌, refl, true, false, none, List, [], ◌∷◌, arith}
use bdbmsgstore.OrdMap.{find, insert, assign, erase}
use bdbmsgstore.TwoLevel.{TwoLevel, remove, put_back}
use bdbmsgstore.PendingOperation.{PendingAsyncDequeue, PendingAsyncEnqueue, pending_operation}
use bdbmsgstore.AsyncLog.Logger.{MassContext, LogFiles, open_logger}
use bdbmsgstore.Journal.{JournalImpl, Outcome, returned, open_journal, init_message_db, is_enqueued}
use bdbmsgstore.Journal.Cells.{Cells, cells}
use bdbmsgstore.Journal.Scan.{Row}
use bdbmsgstore.Message.{Buffer}
use bdbmsgstore.Provider.Recovery.Rows.{Broker}
use bdbmsgstore.Provider.Recovery.Messages.{Recovering, QueueRecovered, decode_recovered}
use bdbmsgstore.Provider.Recovery.Given.{gives}
use bdbmsgstore.Provider.Recovery.Delivery.{Delivered, decode_recovered-Delivered}

-- Memory can be had, and no other thread writes to the logs.
abbrev alone : MassContext
alone = record { malloc = λ n. true; before_enqueues = λ k l. l; before_dequeues = λ k l. l }

abbrev pub no_files : LogFiles
no_files = record { index = 0; files = λ k. none; tmp = none }

abbrev one_byte : List ℕ → ℕ
one_byte [] = 0
one_byte (n ∷ rest) = n

abbrev buffer : Buffer
buffer = record { put_long = λ n. n ∷ 0 ∷ 0 ∷ 0 ∷ []; get_long = one_byte }

abbrev broker : Broker
broker = record { load_content = λ h n. true; uid = λ h. [] }

-- A message with an empty header and one byte of content.
abbrev pub encoded : List ℕ
encoded = 0 ∷ 0 ∷ 0 ∷ 0 ∷ 0 ∷ 65 ∷ []

-- The journal of queue 3 with one database, which is empty.
abbrev journal : JournalImpl Cells
journal = (init_message_db cells (open_journal 1 true)).1

abbrev pub starts : TwoLevel PendingAsyncEnqueue
starts =
    (
      3,
      (7, record { operation = pending_operation 7 3; buff = encoded; size = 6; transient = false })
          ∷ (
            8,
            record {
              operation = pending_operation 8 3;
              buff = encoded;
              size = 6;
              transient = false;
            },
          )
          ∷ [],
    )
    ∷ []

-- Message 7 is dequeued, and so is 5, which was stored before.
abbrev pub dequeues : TwoLevel PendingAsyncDequeue
dequeues =
    (
      3,
      (5, record { operation = pending_operation 5 3 })
          ∷ (7, record { operation = pending_operation 7 3 })
          ∷ [],
    )
    ∷ []

abbrev recovering : Recovering
recovering = record {
  message_map = [];
  message_queue_map = [];
  found_msg = [];
  adset = dequeues;
  aeset = starts;
  aologger = open_logger no_files no_files;
}

-- Messages 5 and 6 are read from the journal; 7 may have been stored too.
abbrev read : List Row
read = (5, encoded) ∷ (6, encoded) ∷ []

not_stored : (p : ℕ) → is_enqueued cells p journal ≡ returned false
unfolding is_enqueued init_message_db open_journal
not_stored p = rw (mod-one p) refl

decode_recovered-Delivered_example :
    (d : QueueRecovered Cells) × (decode_recovered cells
        (λ d. [])
        alone
        buffer
        broker
        false
        []
        3
        journal
        read
        recovering
      ≡ returned d)
    × Delivered cells (λ d. []) alone buffer broker false 3 (λ p. false) journal read recovering d
decode_recovered-Delivered_example =
    decode_recovered-Delivered cells (λ d. []) alone buffer broker false (λ h n. refl) 3
      (λ p. false) journal read recovering not_stored
      (omega arith, (omega arith, (omega arith, tt)), refl, tt) (omega arith)
      ((λ e q. omega arith), ((λ e q. omega arith), tt))
      ((λ q. omega arith), ((λ q. omega arith), tt))

abbrev delivered_to : Outcome (QueueRecovered Cells) → ℕ → ℕ
delivered_to (returned d) p = gives 3 p d.shared.message_queue_map
delivered_to other p = 0

abbrev run : List Row → Outcome (QueueRecovered Cells)
run rows = decode_recovered cells (λ d. []) alone buffer broker false [] 3 journal rows recovering

-- 6 is put back, 5 and 7 were dequeued, and 8 comes from the log.
recovery_run :
    (delivered_to (run read) 5 ≡ 0)
    × (delivered_to (run read) 6 ≡ 1)
    × (delivered_to (run read) 7 ≡ 0)
    × (delivered_to (run read) 8 ≡ 1)
unfolding decode_recovered is_enqueued init_message_db open_journal find remove put_back erase
    assign insert
recovery_run = (refl, refl, refl, refl)

-- Where 7 was stored before the crash, it is put back although it was dequeued.
redelivery_run : delivered_to (run ((7, encoded) ∷ [])) 7 ≡ 1
unfolding decode_recovered is_enqueued init_message_db open_journal find remove put_back erase
    assign insert
redelivery_run = refl
