-- ===== src/Store/Logs.antt =====
-- `ThreadStore` of packages/daemon/src/store.ts. A log is the lines that end in a line break, and
-- what follows the last: a crash leaves a fragment there. The disk is the logs by their paths.
use cueloop.Prelude.{
  ℕ, ◌+◌, Bool, true, false, not, ◌&&◌, ◌||◌, List, [], ◌∷◌, ◌++◌, Option, none, some, String, ◌==◌,
  ◌!=◌, string_eq, if◌then◌else◌, find, filter, length, leb, any,
}
use cueloop.Prelude.Maps.{put}
use cueloop.Types.{Thread, Dictionary, OperationReceipt, Message}
use cueloop.History.Defs.{lookup, insert}
use cueloop.History.Linear.{with_history}
use cueloop.Daemon.Core.{session_id, is_resolved}
use cueloop.Store.Accepted.{accepts_record}

-- The text of a line, with its concatenation, JSON.stringify and JSON.parse, and the tests that the
-- schema of a record makes of the single fields inside it (strings that are not empty, pick lists).
pub record Codec (Line : Type 0) : Type 0 where
  pub encode : Thread → Line
  pub parse : Line → Option Thread
  pub has_shape : Thread → Bool
  pub is_blank : Line → Bool
  pub empty : Line
  pub join : Line → Line → Line
  pub path_of : Thread → String

pub record Log (Line : Type 0) : Type 0 where
  pub path : String
  pub lines : List Line
  pub tail : Line

pub record LineCount : Type 0 where
  pub id : String
  pub lines : ℕ

pub record ThreadStore (Line : Type 0) : Type 0 where
  pub sessions : List Thread
  pub files : Dictionary
  pub line_counts : List LineCount
  pub disk : List (Log Line)

abbrev pub compact_threshold : ℕ
compact_threshold = 40

abbrev pub log_path : {Line : Type 0} → Log Line → String
log_path log = log.path

abbrev pub count_id : LineCount → String
count_id n = n.id

abbrev pub without_key : String → Dictionary → Dictionary
without_key key [] = []
without_key key ((k, v) ∷ m) = if k == key then without_key key m else (k, v) ∷ without_key key m

unfoldable pub log_at : {Line : Type 0} → List (Log Line) → String → Option (Log Line)
log_at disk path = find (λ l. l.path == path) disk

-- What `readThread` gives.
pub record ReadThread : Type 0 where
  pub session : Thread
  pub lines : ℕ
  pub torn : Bool

module _ {Line : Type 0} (codec : Codec Line) where
  -- `validateThreadRecord`: the tests of single fields, and those of `Accepted`.
  abbrev pub accepts : Thread → Bool
  accepts t = codec.has_shape t && accepts_record t

  -- `JSON.parse` and `validateThreadRecord`, a failure of either skipping the line.
  unfoldable pub decode : Line → Option Thread
  unfolding accepts_record
  decode l = elim (codec.parse l) [ none ↦ none | some t ↦ if accepts t then some t else none ]

  -- The non-empty lines of the file.
  unfoldable pub all_lines : Log Line → List Line
  all_lines log = filter (λ l. not (codec.is_blank l)) (log.lines ++ log.tail ∷ [])

  abbrev pub is_followed : List Line → Bool
  is_followed [] = false
  is_followed (l ∷ ls) = true

  -- The loop from the last line: a line is read when no line behind it can be.
  unfoldable pub last_valid : List Line → Option (Thread × Bool)
  unfolding decode
  last_valid [] = none
  last_valid (l ∷ ls) = elim (last_valid ls) [
    | some later ↦ some later
    | none ↦ elim (decode l) [ none ↦ none | some t ↦ some (with_history t, is_followed ls) ]
  ]

  unfoldable pub read_thread : Log Line → Option ReadThread
  unfolding last_valid
  read_thread log = elim (last_valid (all_lines log)) [
    | none ↦ none
    | some (t, torn) ↦ some (record { session = t; lines = length (all_lines log); torn = torn })
  ]

  abbrev pub path_for : ThreadStore Line → Thread → String
  path_for store s = elim (lookup s.id store.files) [ some path ↦ path | none ↦ codec.path_of s ]

  unfoldable pub write_whole : Thread → ThreadStore Line → ThreadStore Line
  write_whole s store = record store {
    disk =
        put log_path
          (record { path = path_for store s; lines = codec.encode s ∷ []; tail = codec.empty })
          store.disk;
    files = insert s.id (path_for store s) store.files;
    line_counts = put count_id (record { id = s.id; lines = 1 }) store.line_counts;
  }

  -- `appendFileSync`: a fragment without a line break is continued.
  abbrev pub appended : Option (Log Line) → String → Line → Log Line
  appended none path text = record { path = path; lines = text ∷ []; tail = codec.empty }
  appended (some log) path text = record {
    path = path;
    lines = log.lines ++ codec.join log.tail text ∷ [];
    tail = codec.empty;
  }

  abbrev pub count_of : ThreadStore Line → String → ℕ
  count_of store id = elim (find (λ n. n.id == id) store.line_counts) [
    | none ↦ 0
    | some n ↦ n.lines
  ]

  abbrev pub has_operations : Option (List (OperationReceipt Message)) → Bool
  has_operations none = false
  has_operations (some []) = false
  has_operations (some (r ∷ rs)) = true

  unfoldable pub append_line : Thread → String → ThreadStore Line → ThreadStore Line
  append_line s path store = record store {
    disk = put log_path (appended (log_at store.disk path) path (codec.encode s)) store.disk;
    line_counts =
        put count_id (record { id = s.id; lines = count_of store s.id + 1 }) store.line_counts;
  }

  unfoldable pub written : Thread → ThreadStore Line → ThreadStore Line
  written s store = elim (lookup s.id store.files) [
    | none ↦ write_whole s store
    | some path ↦
        if leb compact_threshold (count_of store s.id)
          || is_resolved s
          || has_operations s.message_operations
        then write_whole s store
        else append_line s path store
  ]

  unfoldable pub upsert : Thread → ThreadStore Line → ThreadStore Line
  upsert s store = record (written s store) { sessions = put session_id s store.sessions }

  -- `delete`, and whether there was one.
  unfoldable pub delete : String → ThreadStore Line → ThreadStore Line × Bool
  delete id store =
      if any (λ s. s.id == id) store.sessions
      then (
        record store {
          sessions = filter (λ s. s.id != id) store.sessions;
          disk = elim (lookup id store.files) [
            | none ↦ store.disk
            | some path ↦ filter (λ l. l.path != path) store.disk
          ];
          files = without_key id store.files;
          line_counts = filter (λ n. n.id != id) store.line_counts;
        },
        true,
      )
      else (store, false)

  unfoldable pub get : ThreadStore Line → String → Option Thread
  get store id = find (λ s. s.id == id) store.sessions

  -- The record that a log gives, and what is on the disk for an id.
  unfoldable pub read_log : Option (Log Line) → Option Thread
  read_log o = elim o [
    | none ↦ none
    | some log ↦ elim (read_thread log) [ none ↦ none | some r ↦ some r.session ]
  ]

  unfoldable pub read_of : ThreadStore Line → String → Option Thread
  read_of store id = elim (lookup id store.files) [
    | none ↦ none
    | some path ↦ read_log (log_at store.disk path)
  ]

  abbrev pub as_read : Option Thread → Option Thread
  as_read o = elim o [ none ↦ none | some s ↦ some (with_history s) ]

  -- One round of the scan of `recover`: a log that cannot be read is skipped.
  unfoldable pub recover_log : Log Line → ThreadStore Line → ThreadStore Line
  recover_log log store = elim (read_thread log) [
    | none ↦ store
    | some r ↦
        let found : ThreadStore Line = record store {
          sessions = put session_id r.session store.sessions;
          files = insert r.session.id log.path store.files;
          line_counts =
              put count_id (record { id = r.session.id; lines = r.lines }) store.line_counts;
        } in
        if r.torn then write_whole r.session found else found
  ]

  unfoldable pub recover_all : List (Log Line) → ThreadStore Line → ThreadStore Line
  recover_all [] store = store
  recover_all (log ∷ logs) store = recover_all logs (recover_log log store)

  -- A daemon that starts has what is on the disk.
  unfoldable pub recover : List (Log Line) → ThreadStore Line
  recover disk =
      recover_all disk (record { sessions = []; files = []; line_counts = []; disk = disk })

-- What the callers of a repository do to it.
pub data StoreOp : Type 0 where
  upserted : Thread → StoreOp
  deleted : String → StoreOp

abbrev pub empty_store : {Line : Type 0} → ThreadStore Line
empty_store = record { sessions = []; files = []; line_counts = []; disk = [] }

unfoldable pub run_ops :
    {Line : Type 0} → Codec Line → ThreadStore Line → List StoreOp → ThreadStore Line
run_ops codec store [] = store
run_ops codec store (upserted s ∷ ops) = run_ops codec (upsert codec s store) ops
run_ops codec store (deleted id ∷ ops) = run_ops codec (delete codec id store).0 ops

-- `MemoryThreadStore`: the map alone.
unfoldable pub run_in_memory : List Thread → List StoreOp → List Thread
run_in_memory sessions [] = sessions
run_in_memory sessions (upserted s ∷ ops) = run_in_memory (put session_id s sessions) ops
run_in_memory sessions (deleted id ∷ ops) = run_in_memory (filter (λ s. s.id != id) sessions) ops
