-- ===== src/Examples/StoreExamples.antt =====
-- A store whose lines are the records themselves (packages/daemon/src/store.ts).
use cueloop.Prelude.{
  ◌+◌, ◌≡◌, refl, true, false, [], ◌∷◌, none, some, string_dec, find, ◌==◌, ◌!=◌, string_eq,
}
use cueloop.Prelude.Maps.{put}
use cueloop.Types.{Thread}
use cueloop.History.Linear.{with_history}
use cueloop.Store.Logs.{
  Codec, upserted, deleted, all_lines, last_valid, read_thread, read_log, as_read, get, recover_log,
  recover_all, recover, log_at, write_whole, append_line, written, upsert, delete, empty_store,
  run_ops, run_in_memory, decode,
}
use cueloop.Store.Accepted.{accepts_record, accepts_cuts, matches_cuts}
use cueloop.History.Defs.{path_from, walk, tip_of}
use cueloop.History.Validate.{
  validate_history, check_ids, check_parent, check_parents, check_defined, check_tip, check_tips,
  check_walk, check_walks,
}
use cueloop.Store.Durable.{IsCodec}
use cueloop.Store.Recovered.{recover-run_in_memory}
use cueloop.Store.Torn.{read_thread-torn}
use cueloop.Examples.SharingExamples.{session}

program : Unit {0}
unfolding string_dec native.Mathlib.Decide.ℕ_discrete put with_history all_lines last_valid
    read_thread read_log log_at get recover_log recover_all recover write_whole append_line written
    upsert delete run_ops run_in_memory decode accepts_record accepts_cuts matches_cuts
    validate_history check_ids check_parent check_parents check_defined check_tip check_tips
    check_walk check_walks path_from walk tip_of
program = tt

-- A line is a record, a fragment, or empty.
data Line : Type 0 where
  whole : Thread → Line
  fragment : Line
  nothing : Line

abbrev codec : Codec Line
codec = record {
  encode = whole;
  parse = λ l. elim l [ whole t ↦ some t | fragment ↦ none | nothing ↦ none ];
  has_shape = λ t. t.created_at != "";
  is_blank = λ l. elim l [ whole t ↦ false | fragment ↦ false | nothing ↦ true ];
  empty = nothing;
  join = λ l r. elim l [ whole t ↦ fragment | fragment ↦ fragment | nothing ↦ r ];
  path_of = λ t. t.id;
}

codec-IsCodec : IsCodec codec
codec-IsCodec = record {
  reads = λ t. refl;
  shows = λ t. refl;
  empty = refl;
  joins = λ l. refl;
  apart = λ s t q. q;
}

abbrev other : Thread
other = record session { id = "other-thread" }

recover-run_in_memory_example :
    get codec
      (recover codec
        (run_ops codec empty_store (
          upserted session ∷ upserted other ∷ upserted session ∷ deleted "other-thread" ∷ [])).disk)
      "t1"
    ≡ as_read codec (
        find
          (λ s. s.id == "t1")
          (run_in_memory []
            (upserted session ∷ upserted other ∷ upserted session ∷ deleted "other-thread" ∷ [])))
unfolding program
recover-run_in_memory_example =
    recover-run_in_memory codec codec-IsCodec
      (upserted session ∷ upserted other ∷ upserted session ∷ deleted "other-thread" ∷ []) "t1"
      (refl, (refl, (refl, (tt, tt))))

-- A record without an id is skipped.
skipped : decode codec (whole (record session { id = "" })) ≡ none
unfolding program
skipped = refl

-- What a daemon that starts again holds after two writes.
two_writes :
    get codec
      (recover codec (run_ops codec empty_store (upserted session ∷ upserted session ∷ [])).disk)
      "t1"
    ≡ some session
unfolding program
two_writes = refl

read_thread-torn_example :
    read_thread codec (record { path = "t1"; lines = whole session ∷ []; tail = fragment })
    ≡ some (record { session = session; lines = 1 + 1; torn = true })
unfolding program
read_thread-torn_example =
    read_thread-torn codec fragment refl refl refl "t1" (whole session ∷ [])
      {r = record { session = session; lines = 1; torn = false }} refl
