-- ===== src/Store/Refined.antt =====
-- The file store against the map that a repository promises, and what a crash leaves
-- (packages/daemon/src/store.ts).
use cueloop.Prelude.{
  ◌≡◌, refl, sym, ◌∙◌, ap, Bool, true, false, List, [], ◌∷◌, Option, none, some, String, ◌==◌, ◌!=◌,
  string_eq, if◌then◌else◌, find, filter, any, All, Bool-cases, Option-cases, inl, inr, arith,
}
use cueloop.Types.{Thread, Dictionary}
use cueloop.History.Defs.{lookup}
use cueloop.Store.Logs.{
  Codec, Log, ThreadStore, StoreOp, upserted, deleted, log_at, read_log, read_of, as_read, upsert,
  delete, get, without_key, empty_store, run_ops, run_in_memory, accepts,
}
use cueloop.Store.Durable.{IsCodec, IsDurable}
use cueloop.Store.Lines.{upsert-IsDurable}

pub lookup-without_key :
    (k j : String) (m : Dictionary)
    → lookup j (without_key k m) ≡ (if k == j then none else lookup j m)
lookup-without_key k j [] = ground arith
lookup-without_key k j ((i, w) ∷ m) = ground (arith, lookup-without_key k j m)

module _ {A : Type 0} (name : A → String) (gone : String) where
  pub find-filter :
      (i : String) (xs : List A)
      → find (λ x. name x == i) (filter (λ x. name x != gone) xs)
        ≡ (if gone == i then none else find (λ x. name x == i) xs)
  find-filter i [] = ground arith
  find-filter i (x ∷ xs) = ground (arith, find-filter i xs)

  filter_absent :
      (xs : List A) → any (λ x. name x == gone) xs ≡ false → filter (λ x. name x != gone) xs ≡ xs
  filter_absent [] h = refl
  filter_absent (x ∷ xs) h = ground (arith, filter_absent xs)

module _ {Line : Type 0} (codec : Codec Line) (ok : IsCodec codec) where
  module _ (store : ThreadStore Line) (v : (id : String) → IsDurable codec ok store id) where
    delete-sessions :
        (gone : String)
        → (delete codec gone store).0.sessions ≡ filter (λ s. s.id != gone) store.sessions
    unfolding delete
    delete-sessions gone = elim (Bool-cases (any (λ s. s.id == gone) store.sessions)) [
      | inl t ↦ rw t refl
      | inr f ↦ rw f (sym (filter_absent (λ (s : Thread). s.id) gone store.sessions f))
    ]

    pub delete-IsDurable : (gone id : String) → IsDurable codec ok (delete codec gone store).0 id
    unfolding delete get read_of log_at
    delete-IsDurable gone id = go (any (λ s. s.id == gone) store.sessions)
      where
        left : ThreadStore Line
        left = record store {
          sessions = filter (λ s. s.id != gone) store.sessions;
          disk = elim (lookup gone store.files) [
            | none ↦ store.disk
            | some path ↦ filter (λ l. l.path != path) store.disk
          ];
          files = without_key gone store.files;
          line_counts = filter (λ n. n.id != gone) store.line_counts;
        }

        reading : ThreadStore Line → Option String → Option Thread
        reading st o = elim o [ none ↦ none | some p ↦ read_log codec (log_at st.disk p) ]

        files : lookup id left.files ≡ (if gone == id then none else lookup id store.files)
        files = lookup-without_key gone id store.files

        sessions : get codec left id ≡ (if gone == id then none else get codec store id)
        sessions = find-filter (λ (s : Thread). s.id) gone id store.sessions

        -- Another id has another path.
        paths :
            (gone == id) ≡ false
            → (path p : String) → lookup gone store.files ≡ some path
            → lookup id store.files ≡ some p
            → (path == p) ≡ false
        paths f path p n q = elim (Bool-cases (path == p)) [
          | inl t ↦
              let (a, ai, aw) = (v gone).owned path n in
              let (b, bi, bw) = (v id).owned p q in
              let same : a.id ≡ b.id = ok.apart a b (aw ∙ (ground arith ∙ sym bw)) in
              absurd (ground (arith, same, ai, bi))
          | inr g ↦ g
        ]

        disk_kept :
            (gone == id) ≡ false
            → (p : String) → lookup id store.files ≡ some p
            → log_at left.disk p ≡ log_at store.disk p
        disk_kept f p q = on_gone (lookup gone store.files) refl
          where
            on_gone :
                (o : Option String)
                → lookup gone store.files ≡ o
                → log_at
                    (elim o [
                      | none ↦ store.disk
                      | some path ↦ filter (λ l. l.path != path) store.disk
                    ])
                    p
                  ≡ log_at store.disk p
            on_gone none n = refl
            on_gone (some path) n =
                let differs : (path == p) ≡ false = paths f path p n q in
                find-filter (λ (l : Log Line). l.path) path p store.disk ∙ rw differs refl

        gone-IsDurable : (gone == id) ≡ true → IsDurable codec ok left id
        gone-IsDurable t =
            let no_file : lookup id left.files ≡ none = files ∙ rw t refl in
            let no_session : get codec left id ≡ none = sessions ∙ rw t refl in
            record {
              kept = ap (reading left) no_file ∙ sym (ap (as_read codec) no_session);
              owned = λ p q. absurd (cc (sym no_file ∙ q));
              clean = λ p l q r. absurd (cc (sym no_file ∙ q));
            }

        other-IsDurable : (gone == id) ≡ false → IsDurable codec ok left id
        other-IsDurable f =
            let at : lookup id left.files ≡ lookup id store.files = files ∙ rw f refl in
            let same : get codec left id ≡ get codec store id = sessions ∙ rw f refl in
            record {
              kept = unread at ∙ ((v id).kept ∙ sym (ap (as_read codec) same));
              owned = λ p q. (v id).owned p (sym at ∙ q);
              clean =
                  λ p l q r. (v id).clean p l (sym at ∙ q) (sym (disk_kept f p (sym at ∙ q)) ∙ r);
            }
          where
            unread :
                lookup id left.files ≡ lookup id store.files
                → read_of codec left id ≡ read_of codec store id
            unread at = elim (Option-cases (lookup id store.files)) [
              | inl n ↦ ap (reading left) (at ∙ n) ∙ sym (ap (reading store) n)
              | inr (p, q) ↦
                  ap (reading left) (at ∙ q)
                  ∙ (ap (read_log codec) (disk_kept f p q) ∙ sym (ap (reading store) q))
            ]

        left-IsDurable : IsDurable codec ok left id
        left-IsDurable = elim (Bool-cases (gone == id)) [
          | inl t ↦ gone-IsDurable t
          | inr f ↦ other-IsDurable f
        ]

        go :
            (b : Bool)
            → (let r : ThreadStore Line × Bool = if b then (left, true) else (store, false) in
                IsDurable codec ok r.0 id)
        go true = left-IsDurable
        go false = v id

  -- Every record that is written is one that the schema accepts.
  abbrev pub IsAccepted : StoreOp → Type 0
  IsAccepted (upserted s) = accepts codec s ≡ true
  IsAccepted (deleted id) = Unit

  pub run_ops-IsDurable :
      (store : ThreadStore Line)
      → ((id : String) → IsDurable codec ok store id)
      → (ops : List StoreOp) → All IsAccepted ops
      → (id : String) → IsDurable codec ok (run_ops codec store ops) id
  unfolding run_ops
  run_ops-IsDurable store v [] a id = v id
  run_ops-IsDurable store v (upserted s ∷ ops) a id =
      run_ops-IsDurable (upsert codec s store) (upsert-IsDurable codec ok store v s a.0) ops a.1 id
  run_ops-IsDurable store v (deleted gone ∷ ops) a id =
      run_ops-IsDurable (delete codec gone store).0 (delete-IsDurable store v gone) ops a.1 id

  pub run_ops-sessions :
      (store : ThreadStore Line)
      → ((id : String) → IsDurable codec ok store id)
      → (ops : List StoreOp) → All IsAccepted ops
      → (run_ops codec store ops).sessions ≡ run_in_memory store.sessions ops
  unfolding run_ops run_in_memory upsert
  run_ops-sessions store v [] a = refl
  run_ops-sessions store v (upserted s ∷ ops) a =
      run_ops-sessions (upsert codec s store) (upsert-IsDurable codec ok store v s a.0) ops a.1
  run_ops-sessions store v (deleted gone ∷ ops) a =
      run_ops-sessions (delete codec gone store).0 (delete-IsDurable store v gone) ops a.1
      ∙ ap (λ (xs : List Thread). run_in_memory xs ops) (delete-sessions store v gone)

  pub empty-IsDurable : (id : String) → IsDurable codec ok empty_store id
  unfolding read_of get
  empty-IsDurable id = record { kept = refl; owned = λ p q. cc; clean = λ p l q r. cc }
