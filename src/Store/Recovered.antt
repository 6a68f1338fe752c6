-- ===== src/Store/Recovered.antt =====
-- A daemon that starts again (packages/daemon/src/store.ts, `recover`).
use cueloop.Prelude.{
  ◌≡◌, refl, sym, ◌∙◌, ap, true, false, List, [], ◌∷◌, Option, none, some, String, ◌==◌, ◌⊎◌,
  string_eq, if◌then◌else◌, find, All, Bool-cases, Option-cases, inl, inr, arith,
}
use cueloop.Prelude.Maps.{put}
use cueloop.Prelude.Keyed.{find-put, find_holds}
use cueloop.Types.{Thread, Revision, SessionHistory}
use cueloop.History.Defs.{lookup, insert, Result, ok, err}
use cueloop.History.Linear.{with_history, history_from_linear}
use cueloop.Daemon.Core.{session_id}
use cueloop.Store.Logs.{
  count_id, Codec, Log, ThreadStore, ReadThread, StoreOp, log_at, read_log, read_thread, read_of,
  as_read, get, write_whole, empty_store, run_ops, run_in_memory, recover_log, recover_all, recover,
}
use cueloop.Store.Durable.{IsCodec, IsDurable}
use cueloop.Store.Refined.{IsAccepted, run_ops-IsDurable, run_ops-sessions, empty-IsDurable}
use cueloop.Store.Listed.{IsLogOf, IsListed, run_ops-IsListed}

with_history-id : (s : Thread) → (with_history s).id ≡ s.id
unfolding with_history
with_history-id s = from_history s.history
  where
    from_linear :
        (r : Result SessionHistory)
        → (let t : Thread = elim r [ ok h ↦ record s { history = some h } | err _ ↦ s ] in t.id)
          ≡ s.id
    from_linear (ok h) = refl
    from_linear (err e) = refl

    from_revisions :
        (rs : List Revision)
        → (let t : Thread = elim rs [
          | [] ↦ s
          | _ ∷ _ ↦ elim (history_from_linear s) [
            | ok h ↦ record s { history = some h }
            | err _ ↦ s
          ]
        ] in
            t.id)
          ≡ s.id
    from_revisions [] = refl
    from_revisions (x ∷ xs) = from_linear (history_from_linear s)

    from_history :
        (o : Option SessionHistory)
        → (let t : Thread = elim o [
          | some _ ↦ s
          | none ↦ elim s.revisions [
            | [] ↦ s
            | _ ∷ _ ↦ elim (history_from_linear s) [
              | ok h ↦ record s { history = some h }
              | err _ ↦ s
            ]
          ]
        ] in
            t.id)
          ≡ s.id
    from_history none = from_revisions s.revisions
    from_history (some h) = refl

module _ {Line : Type 0} (codec : Codec Line) (ok : IsCodec codec) where
  -- A log that can be read puts its session into the map.
  recover_log-sessions :
      (log : Log Line) (acc : ThreadStore Line) {t : Thread}
      → read_log codec (some log) ≡ some t
      → (recover_log codec log acc).sessions ≡ put session_id t acc.sessions
  unfolding recover_log read_log write_whole
  recover_log-sessions log acc {t} h = elim (Option-cases (read_thread codec log)) [
    | inl n ↦ absurd (ground (arith, n))
    | inr (r, q) ↦
        let same : r.session ≡ t = ground (arith, q) in
        ap (λ o. (after o).sessions) q
        ∙ (either r (Bool-cases r.torn) ∙ ap (λ (x : Thread). put session_id x acc.sessions) same)
  ]
    where
      found : ReadThread → ThreadStore Line
      found r = record acc {
        sessions = put session_id r.session acc.sessions;
        files = insert r.session.id log.path acc.files;
        line_counts = put count_id (record { id = r.session.id; lines = r.lines }) acc.line_counts;
      }

      after : Option ReadThread → ThreadStore Line
      after o = elim o [
        | none ↦ acc
        | some r ↦ if r.torn then write_whole codec r.session (found r) else found r
      ]

      either :
          (r : ReadThread)
          → (r.torn ≡ true) ⊎ (r.torn ≡ false)
          → (after (some r)).sessions ≡ put session_id r.session acc.sessions
      either r (inl t) = rw t refl
      either r (inr f) = rw f refl

  module _ (store : ThreadStore Line) (id : String) where
    one :
        (log : Log Line) (acc : ThreadStore Line) (s : Thread)
        → read_log codec (some log) ≡ some (with_history s)
        → get codec (recover_log codec log acc) id
          ≡ (if s.id == id then some (with_history s) else get codec acc id)
    unfolding get
    one log acc s r =
        ap (λ (xs : List Thread). find (λ x. x.id == id) xs) (recover_log-sessions log acc r)
        ∙ (find-put session_id (with_history s) acc.sessions id
            ∙ ap
                (λ i.
                  if i == id then some (with_history s) else find (λ x. x.id == id) acc.sessions)
                (with_history-id s))

    abbrev Agrees : ThreadStore Line → Type 0
    Agrees acc = get codec acc id ≡ as_read codec (get codec store id)

    -- The log of the id settles it, whatever was there before.
    settles :
        (log : Log Line) (acc : ThreadStore Line) (s : Thread)
        → get codec store s.id ≡ some s
        → read_log codec (some log) ≡ some (with_history s)
        → (s.id == id) ≡ true
        → Agrees (recover_log codec log acc)
    settles log acc s g r t =
        let there : get codec store id ≡ some s = ap (get codec store) (sym (string_same t)) ∙ g in
        one log acc s r ∙ (rw t refl ∙ sym (ap (as_read codec) there))
      where
        string_same : (s.id == id) ≡ true → s.id ≡ id
        string_same t = ground arith

    keeps_one :
        (log : Log Line) (acc : ThreadStore Line)
        → IsLogOf codec ok store log
        → Agrees acc
        → Agrees (recover_log codec log acc)
    keeps_one log acc (s, g, f, r) a = elim (Bool-cases (s.id == id)) [
      | inl t ↦ settles log acc s g r t
      | inr n ↦ one log acc s r ∙ (rw n refl ∙ a)
    ]

    keeps :
        (logs : List (Log Line)) (acc : ThreadStore Line)
        → All (IsLogOf codec ok store) logs
        → Agrees acc
        → Agrees (recover_all codec logs acc)
    unfolding recover_all
    keeps [] acc k a = a
    keeps (log ∷ logs) acc k a =
        keeps logs (recover_log codec log acc) k.1 (keeps_one log acc k.0 a)

    -- A log that stands among them settles it.
    reaches :
        (logs : List (Log Line)) (acc : ThreadStore Line) (path : String) {log : Log Line}
        (t : Thread)
        → All (IsLogOf codec ok store) logs
        → find (λ l. l.path == path) logs ≡ some log
        → read_log codec (some log) ≡ some (with_history t)
        → t.id ≡ id
        → Agrees (recover_all codec logs acc)
    unfolding recover_all
    reaches [] acc path t k q h i = cc
    reaches (l ∷ ls) acc path {log} t k q h i = elim (Bool-cases (l.path == path)) [
      | inl e ↦
          let here : l ≡ log = ground (arith, q) in
          keeps ls (recover_log codec l acc) k.1 (first here k.0)
      | inr e ↦ reaches ls (recover_log codec l acc) path {log = log} t k.1 (rw e at q) h i
    ]
      where
        first : l ≡ log → IsLogOf codec ok store l → Agrees (recover_log codec l acc)
        first here (s, g, f, r) =
            let read : some (with_history s) ≡ some (with_history t) =
              sym r ∙ (ap (λ (x : Log Line). read_log codec (some x)) here ∙ h) in
            let same : with_history s ≡ with_history t = ground (arith, read) in
            let owner : s.id ≡ id =
              sym (with_history-id s)
              ∙ (ap (λ (x : Thread). x.id) same ∙ (with_history-id t ∙ i)) in
            settles l acc s g r (ground arith)

    recover-Agrees :
        IsDurable codec ok store id → IsListed codec ok store → Agrees (recover codec store.disk)
    unfolding recover get read_of read_log log_at
    recover-Agrees d v = elim (Option-cases (get codec store id)) [
      | inl n ↦
          keeps store.disk (record empty_store { disk = store.disk }) v.logs
            (sym (ap (as_read codec) n))
      | inr (t, q) ↦ with_log t q (Option-cases (lookup id store.files))
    ]
      where
        here : ThreadStore Line → Option String → Option Thread
        here st o = elim o [ none ↦ none | some p ↦ read_log codec (log_at st.disk p) ]

        with_log :
            (t : Thread)
            → get codec store id ≡ some t
            → (lookup id store.files ≡ none) ⊎ ((p : String) × (lookup id store.files ≡ some p))
            → Agrees (recover codec store.disk)
        with_log t q (inl n) =
            absurd (ground (arith, sym (ap (here store) n) ∙ (d.kept ∙ ap (as_read codec) q)))
        with_log t q (inr (p, m)) =
            let read : read_log codec (log_at store.disk p) ≡ some (with_history t) =
              sym (ap (here store) m) ∙ (d.kept ∙ ap (as_read codec) q) in
            elim (Option-cases (log_at store.disk p)) [
              | inl n ↦ absurd (ground (arith, sym (ap (read_log codec) n) ∙ read))
              | inr (log, f) ↦
                  reaches store.disk (record empty_store { disk = store.disk }) p {log = log} t
                    v.logs f (sym (ap (read_log codec) f) ∙ read)
                    (ground (arith, find_holds _ store.sessions q))
            ]

  -- For an encoding that is parsed back, is not blank and gives different ids different paths, any
  -- sequence of writes and deletions from the start that writes only records which the schema
  -- accepts, and any id: a daemon that starts again
  -- from the disk that the sequence leaves holds under the id the record that the map in memory
  -- holds under it after the same sequence, with its history derived as on reading, and nothing
  -- where that holds nothing.
  pub recover-run_in_memory :
      (ops : List StoreOp) (id : String)
      → All (IsAccepted codec ok) ops
      → get codec (recover codec (run_ops codec empty_store ops).disk) id
        ≡ as_read codec (find (λ s. s.id == id) (run_in_memory [] ops))
  unfolding get
  recover-run_in_memory ops id a =
      recover-Agrees (run_ops codec empty_store ops) id
        (run_ops-IsDurable codec ok empty_store (empty-IsDurable codec ok) ops a id)
        (run_ops-IsListed codec ok ops a)
      ∙ ap (λ (xs : List Thread). as_read codec (find (λ s. s.id == id) xs))
          (run_ops-sessions codec ok empty_store (empty-IsDurable codec ok) ops a)
