-- ===== src/Provider/Recovery/Rows.antt =====
-- The second loop of `decodeAndRecoverMsg` (lib/BdbStoreProvider.cpp), over the messages that were
-- read from the journal and taken up from the log. The broker's message is not part of the sources:
-- its header and content are bytes, `load_content` says whether the broker wants the content, and
-- `uid` reads the application header "UID". What a `Buffer` does beyond its end is `undefined`.
use Prim.Native.Nat.{max}
use bdbmsgstore.Prelude.{
  ℕ, ◌+◌, Bool, true, false, ◌&&◌, ◌||◌, List, [], ◌∷◌, ◌++◌, ltb, ◌==◌, if◌then◌else◌, is_some,
  get_or, length, take, drop,
}
use bdbmsgstore.OrdMap.{OrdMap, IdSet, find, insert, erase, assign}
use bdbmsgstore.TwoLevel.{TwoLevel, remove}
use bdbmsgstore.PendingOperation.{PendingOperationId, PendingAsyncDequeue, PendingAsyncEnqueue}
use bdbmsgstore.Journal.{Outcome, returned, undefined}
use bdbmsgstore.Journal.Scan.{Row}
use bdbmsgstore.Message.{Buffer}
use bdbmsgstore.Provider.Recovery.{QueueRecoverReport, ◌>>=◌}

pub record Broker : Type 0 where
  pub load_content : List ℕ → ℕ → Bool
  pub uid : List ℕ → List ℕ

pub record RecoverableMessage : Type 0 where
  pub header : List ℕ
  pub content : List ℕ

-- m[k] = v
abbrev pub put : {V : Type 0} → ℕ → V → OrdMap V → OrdMap V
put k v m = assign k v (insert k v m)

-- m[k].push_back(v)
abbrev pub push : {V : Type 0} → ℕ → V → OrdMap (List V) → OrdMap (List V)
push k v m = put k (get_or (find k m) [] ++ (v ∷ [])) m

abbrev pub eq_bytes : List ℕ → List ℕ → Bool
eq_bytes [] [] = true
eq_bytes [] (b ∷ bs) = false
eq_bytes (a ∷ as') [] = false
eq_bytes (a ∷ as') (b ∷ bs) = a == b && eq_bytes as' bs

abbrev pub mem_bytes : List ℕ → List (List ℕ) → Bool
mem_bytes u [] = false
mem_bytes u (v ∷ vs) = eq_bytes v u || mem_bytes u vs

-- What the second loop changes. The entry of a message in the last map names the queues that get it.
pub record RowPass : Type 0 where
  pub adset : TwoLevel PendingAsyncDequeue
  pub aeset : TwoLevel PendingAsyncEnqueue
  pub transient_msg : List ℕ
  pub inner_accepted_msg : List ℕ
  pub async_accepted_msg : List ℕ
  pub transient_async : List PendingOperationId
  pub useless_async : List PendingOperationId
  pub dequeue_completed_async : List PendingOperationId
  pub penq_recovered : IdSet
  pub found_msg : List (List ℕ)
  pub last_pid : ℕ
  pub max_rid : ℕ
  pub report : QueueRecoverReport
  pub message_map : OrdMap RecoverableMessage
  pub message_queue_map : OrdMap (List ℕ)

abbrev pub add_transient : ℕ → RowPass → RowPass
add_transient id s = record s {
  transient_msg = s.transient_msg ++ (id ∷ []);
  report = record s.report { tcnt = s.report.tcnt + 1 };
}

-- Whether the message was taken up from the log, and the highest ids. `penq_recovered` is only left
-- by an id that is in it.
unfoldable pub note_id : ℕ → RowPass → Bool × RowPass
note_id id s =
    let known = is_some (find id s.penq_recovered) in
    (
      known,
      record s {
        penq_recovered = if known then erase id s.penq_recovered else s.penq_recovered;
        last_pid = if known then s.last_pid else max id s.last_pid;
        max_rid = max id s.max_rid;
      },
    )

module _ (queue : ℕ) where
  -- A message that was accepted elsewhere while the store was down.
  unfoldable pub drop_accepted : ℕ → List ℕ → RowPass → RowPass
  drop_accepted id uid s =
      let (enqueue_found, aeset') = remove queue id s.aeset in
      let (dequeue_found, adset') = remove queue id s.adset in
      let s' = record s {
        found_msg = s.found_msg ++ (uid ∷ []);
        report = record s.report { acnt = s.report.acnt + 1 };
      } in
      if enqueue_found
      then if dequeue_found
        then record s' {
          aeset = aeset';
          adset = adset';
          useless_async = s.useless_async ++ ((id, queue) ∷ []);
        }
        else record s' { aeset = aeset'; transient_async = s.transient_async ++ ((id, queue) ∷ []) }
      else record s' { inner_accepted_msg = s.inner_accepted_msg ++ (id ∷ []) }

  unfoldable pub check_accepted : Bool → List (List ℕ) → ℕ → List ℕ → RowPass → Bool × RowPass
  unfolding drop_accepted
  check_accepted enable_accept_recovery accepted_from_mongo id uid s =
      if enable_accept_recovery && (ltb 0 (length uid) && mem_bytes uid accepted_from_mongo)
      then (false, drop_accepted id uid s)
      else (true, s)

  -- The search for a pending dequeue of the message.
  unfoldable pub check_dequeued : ℕ → Bool × RowPass → Bool × RowPass
  check_dequeued id (to_recover, s) =
      let (dequeued, adset') = remove queue id s.adset in
      if dequeued
      then (
        false,
        record s {
          adset = adset';
          async_accepted_msg = s.async_accepted_msg ++ (id ∷ []);
          report = record s.report { aacnt = s.report.aacnt + 1 };
          dequeue_completed_async = s.dequeue_completed_async ++ ((id, queue) ∷ []);
        },
      )
      else (to_recover, s)

  -- The message is entered only where the broker wants its content.
  unfoldable pub give_message : Broker → Bool → ℕ → List ℕ → List ℕ → RowPass → RowPass
  give_message broker from_log id header content s =
      if broker.load_content header (length content)
      then record s {
        report = record s.report {
          rcnt = s.report.rcnt + 1;
          logcnt = if from_log then s.report.logcnt + 1 else s.report.logcnt;
          dbcnt = if from_log then s.report.dbcnt else s.report.dbcnt + 1;
        };
        message_map = put id (record { header = header; content = content }) s.message_map;
        message_queue_map = push id queue s.message_queue_map;
      }
      else s

module _ (b : Buffer) (broker : Broker) (enable_accept_recovery : Bool)
    (accepted_from_mongo : List (List ℕ)) (queue : ℕ) where
  unfoldable pub lasting_row : ℕ → List ℕ → List ℕ → RowPass → RowPass
  unfolding note_id check_accepted check_dequeued give_message
  lasting_row id header content s =
      let (from_log, noted) = note_id id s in
      let (to_recover, s') = check_dequeued queue id (
        check_accepted queue enable_accept_recovery accepted_from_mongo id (broker.uid header)
          noted) in
      if to_recover then give_message queue broker from_log id header content s' else s'

  -- The header's size stands after the flag, the header after the size, the content after the header.
  abbrev pub lasting : ℕ → List ℕ → RowPass → Outcome RowPass
  lasting id value s =
      let header_size = b.get_long (drop 1 value) in
      if ltb (length value) (header_size + 5)
      then undefined
      else returned
          (lasting_row id (take header_size (drop 5 value)) (drop (header_size + 5) value) s)

  unfoldable pub recover_row : Row → RowPass → Outcome RowPass
  unfolding lasting_row
  recover_row (id, []) s = undefined
  recover_row (id, flag ∷ value) s =
      if flag == 0 then lasting id (flag ∷ value) s else returned (add_transient id s)

  unfoldable pub recover_rows : List Row → RowPass → Outcome RowPass
  unfolding recover_row
  recover_rows [] s = returned s
  recover_rows (row ∷ rows) s = recover_row row s >>= recover_rows rows
