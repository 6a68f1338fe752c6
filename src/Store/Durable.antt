-- ===== src/Store/Durable.antt =====
-- What is on the disk is what the Threads are (packages/daemon/src/store.ts).
use cueloop.Prelude.{
  ◌≡◌, refl, sym, ◌∙◌, ap, Bool, true, false, not, List, [], ◌∷◌, ◌++◌, Option, none, some, String,
  ◌==◌, string_eq, if◌then◌else◌, find, filter, length, Bool-cases, Option-cases, inl, inr, arith,
}
use cueloop.Prelude.Maps.{put}
use cueloop.Prelude.Keyed.{find-put}
use cueloop.Types.{Thread}
use cueloop.History.Defs.{lookup}
use cueloop.History.Linear.{with_history}
use cueloop.Daemon.Core.{session_id}
use cueloop.Store.Logs.{
  Codec, Log, ThreadStore, ReadThread, log_path, log_at, all_lines, last_valid, read_thread,
  read_log, read_of, as_read, get, accepts, decode,
}

-- A record that is written is parsed again, its line is not blank and the empty one is, nothing is
-- added by the empty text, and records with different ids have different paths.
pub record IsCodec {Line : Type 0} (codec : Codec Line) : Type 0 where
  pub reads : (t : Thread) → codec.parse (codec.encode t) ≡ some t
  pub shows : (t : Thread) → codec.is_blank (codec.encode t) ≡ false
  pub empty : codec.is_blank codec.empty ≡ true
  pub joins : (l : Line) → codec.join codec.empty l ≡ l
  pub apart : (s t : Thread) → codec.path_of s ≡ codec.path_of t → s.id ≡ t.id

module _ {Line : Type 0} (codec : Codec Line) (ok : IsCodec codec) where
  filter-append_last :
      (xs : List Line) (l : Line)
      → codec.is_blank l ≡ false
      → filter (λ x. not (codec.is_blank x)) ((xs ++ l ∷ []) ++ codec.empty ∷ [])
        ≡ filter (λ x. not (codec.is_blank x)) xs ++ l ∷ []
  filter-append_last [] l n = rw (n, ok.empty) refl
  filter-append_last (x ∷ xs) l n = ground (arith, filter-append_last xs l n)

  last_valid-append :
      (xs : List Line) (l : Line) (t : Thread)
      → decode codec l ≡ some t
      → last_valid codec (xs ++ l ∷ []) ≡ some (with_history t, false)
  unfolding last_valid
  last_valid-append [] l t d = rw (last_valid, d) refl
  last_valid-append (x ∷ xs) l t d = rw (last_valid-append xs l t d) refl

  decode-encode : (t : Thread) → accepts codec t ≡ true → decode codec (codec.encode t) ≡ some t
  unfolding decode
  decode-encode t a = rw (decode, ok.reads t, a) refl

  abbrev session_of : Option ReadThread → Option Thread
  session_of o = elim o [ none ↦ none | some r ↦ some r.session ]

  module _ (path : String) (xs : List Line) (s : Thread) where
    abbrev pub grown : Log Line
    grown = record { path = path; lines = xs ++ codec.encode s ∷ []; tail = codec.empty }

    abbrev of_lines : Option (Thread × Bool) → Option ReadThread
    of_lines o = elim o [
      | none ↦ none
      | some p ↦ some (record { session = p.0; lines = length (all_lines codec grown); torn = p.1 })
    ]

    -- The last line of a log without a fragment is read.
    read_thread-last :
        accepts codec s ≡ true
        → read_thread codec grown
          ≡ some (record {
            session = with_history s;
            lines = length (all_lines codec grown);
            torn = false;
          })
    unfolding read_thread all_lines
    read_thread-last accepted =
        ap (λ l. of_lines (last_valid codec l))
          (filter-append_last xs (codec.encode s) (ok.shows s))
        ∙ ap of_lines (
            last_valid-append (filter (λ x. not (codec.is_blank x)) xs) (codec.encode s) s
              (decode-encode s accepted))

    pub read_log-last : accepts codec s ≡ true → read_log codec (some grown) ≡ some (with_history s)
    unfolding read_log
    read_log-last accepted = ap session_of (read_thread-last accepted)

  -- The log of the id gives its record, has the path of such a record, and ends in a line break.
  pub record IsDurable (store : ThreadStore Line) (id : String) : Type 0 where
    pub kept : read_of codec store id ≡ as_read codec (get codec store id)
    pub owned :
        (p : String)
        → lookup id store.files ≡ some p
        → (t : Thread) × (t.id ≡ id) × (codec.path_of t ≡ p)
    pub clean :
        (p : String) (log : Log Line)
        → lookup id store.files ≡ some p
        → log_at store.disk p ≡ some log
        → log.tail ≡ codec.empty

  -- A line that is written for a session, whichever way.
  module _ (store next : ThreadStore Line) (s owner : Thread) (path : String) (xs : List Line)
      (accepted : accepts codec s ≡ true) (v : (id : String) → IsDurable store id)
      (own_id : owner.id ≡ s.id) (own_path : codec.path_of owner ≡ path)
      (files : (j : String)
        → lookup j next.files ≡ (if s.id == j then some path else lookup j store.files))
      (disk : next.disk ≡ put log_path (grown path xs s) store.disk)
      (sessions : next.sessions ≡ put session_id s store.sessions) where
    log_after :
        (p : String)
        → log_at next.disk p ≡ (if path == p then some (grown path xs s) else log_at store.disk p)
    unfolding log_at
    log_after p =
        ap (λ (d : List (Log Line)). find (λ l. l.path == p) d) disk
        ∙ find-put log_path (grown path xs s) store.disk p

    session_after :
        (id : String) → get codec next id ≡ (if s.id == id then some s else get codec store id)
    unfolding get
    session_after id =
        ap (λ (d : List Thread). find (λ t. t.id == id) d) sessions
        ∙ find-put session_id s store.sessions id

    abbrev reading : ThreadStore Line → Option String → Option Thread
    reading st o = elim o [ none ↦ none | some p ↦ read_log codec (log_at st.disk p) ]

    same_id : (id : String) → (s.id == id) ≡ true → IsDurable next id
    unfolding read_of
    same_id id e =
        let at : lookup id next.files ≡ some path = files id ∙ rw e refl in
        let here : get codec next id ≡ some s = session_after id ∙ rw e refl in
        let log : log_at next.disk path ≡ some (grown path xs s) = log_after path ∙ ground arith in
        record {
          kept =
              ap (reading next) at
              ∙ (ap (read_log codec) log
                  ∙ (read_log-last path xs s accepted ∙ sym (ap (as_read codec) here)));
          owned = λ p q.
              let same : path ≡ p = ground (arith, sym at ∙ q) in
              (owner, own_id ∙ ground arith, own_path ∙ same);
          clean = λ p l q r.
              let same : path ≡ p = ground (arith, sym at ∙ q) in
              let found : grown path xs s ≡ l =
                ground (arith, sym log ∙ (ap (log_at next.disk) same ∙ r)) in
              ap (λ (x : Log Line). x.tail) (sym found);
        }

    other_id : (id : String) → (s.id == id) ≡ false → IsDurable next id
    unfolding read_of
    other_id id e =
        let at : lookup id next.files ≡ lookup id store.files = files id ∙ rw e refl in
        let there : get codec next id ≡ get codec store id = session_after id ∙ rw e refl in
        record {
          kept = unread ∙ ((v id).kept ∙ sym (ap (as_read codec) there));
          owned = λ p q. (v id).owned p (sym at ∙ q);
          clean = λ p l q r. (v id).clean p l (sym at ∙ q) (sym (log_kept p (sym at ∙ q)) ∙ r);
        }
      where
        apart : (p : String) → lookup id store.files ≡ some p → (path == p) ≡ false
        apart p q = elim (Bool-cases (path == p)) [
          | inl t ↦
              let (o, i, w) = (v id).owned p q in
              let same : owner.id ≡ o.id = ok.apart owner o (own_path ∙ (ground arith ∙ sym w)) in
              absurd (ground (arith, same, i, own_id))
          | inr f ↦ f
        ]

        log_kept :
            (p : String) → lookup id store.files ≡ some p → log_at next.disk p ≡ log_at store.disk p
        log_kept p q = log_after p ∙ rw (apart p q) refl

        unread : read_of codec next id ≡ read_of codec store id
        unread =
            let at : lookup id next.files ≡ lookup id store.files = files id ∙ rw e refl in
            elim (Option-cases (lookup id store.files)) [
              | inl n ↦ ap (reading next) (at ∙ n) ∙ sym (ap (reading store) n)
              | inr (p, q) ↦
                  ap (reading next) (at ∙ q)
                  ∙ (ap (read_log codec) (log_kept p q) ∙ sym (ap (reading store) q))
            ]

    pub line-IsDurable : (id : String) → IsDurable next id
    line-IsDurable id = elim (Bool-cases (s.id == id)) [
      | inl t ↦ same_id id t
      | inr f ↦ other_id id f
    ]

  -- What a write does, whichever way: a line behind others, or alone, in the log of the session.
  pub record IsLine (store next : ThreadStore Line) (s : Thread) : Type 0 where
    pub owner : Thread
    pub path : String
    pub before : List Line
    pub accepted : accepts codec s ≡ true
    pub own_id : owner.id ≡ s.id
    pub own_path : codec.path_of owner ≡ path
    pub same_path : (p : String) → lookup s.id store.files ≡ some p → path ≡ p
    pub files :
        (j : String) → lookup j next.files ≡ (if s.id == j then some path else lookup j store.files)
    pub disk : next.disk ≡ put log_path (grown path before s) store.disk
    pub sessions : next.sessions ≡ put session_id s store.sessions

  pub IsLine-IsDurable :
      {store next : ThreadStore Line} {s : Thread}
      → IsLine store next s
      → ((id : String) → IsDurable store id)
      → (id : String) → IsDurable next id
  IsLine-IsDurable {store} {next} {s} l v =
      line-IsDurable store next s l.owner l.path l.before l.accepted v l.own_id l.own_path l.files
        l.disk l.sessions
