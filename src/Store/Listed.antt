-- ===== src/Store/Listed.antt =====
-- Every log on the disk is that of a Thread (packages/daemon/src/store.ts).
use cueloop.Prelude.{
  ◌≡◌, refl, sym, ◌∙◌, ap, subst, Bool, true, false, List, [], ◌∷◌, Option, none, some, String,
  ◌==◌, ◌!=◌, string_eq, if◌then◌else◌, find, filter, any, All, All-imp, Bool-cases, Option-cases,
  inl, inr, arith,
}
use cueloop.Prelude.Maps.{put}
use cueloop.Prelude.Keyed.{
  Apart, Apart-put, Apart-append, Apart-filter, put_new, find-none, find_holds, find-put,
}
use cueloop.Types.{Thread}
use cueloop.History.Defs.{lookup}
use cueloop.History.Linear.{with_history}
use cueloop.Daemon.Core.{session_id}
use cueloop.Store.Logs.{
  Codec, Log, ThreadStore, StoreOp, upserted, deleted, log_path, read_log, upsert, delete, get,
  without_key, empty_store, run_ops,
}
use cueloop.Store.Durable.{IsCodec, IsDurable, IsLine, grown, read_log-last}
use cueloop.Store.Lines.{upsert-IsLine, upsert-IsDurable}
use cueloop.Store.Refined.{
  IsAccepted, delete-IsDurable, empty-IsDurable, lookup-without_key, find-filter,
}

module _ {Line : Type 0} where
  abbrev same_path : Log Line → Log Line → Bool
  same_path a b = a.path == b.path

  Apart-put_any :
      (x : Log Line) (xs : List (Log Line))
      → Apart same_path xs
      → Apart same_path (put log_path x xs)
  Apart-put_any x xs h = elim (Option-cases (find (λ l. l.path == x.path) xs)) [
    | inl n ↦
        rw (put_new log_path x xs (find-none _ xs n))
          (Apart-append same_path x xs h (find-none _ xs n))
    | inr (old, q) ↦ Apart-put log_path same_path x old xs (λ z. like old z (find_holds _ xs q)) q h
  ]
    where
      like :
          (old z : Log Line)
          → (old.path == x.path) ≡ true
          → (same_path x z ≡ same_path old z) × (same_path z x ≡ same_path z old)
      like old z e =
          let paths : old.path ≡ x.path = ground arith in
          (ap (λ i. i == z.path) (sym paths), ap (λ i. z.path == i) (sym paths))

  All-put_apart :
      (P : Log Line → Type 0) (x : Log Line) (xs : List (Log Line))
      → Apart same_path xs
      → P x
      → All (λ y. (y.path == x.path) ≡ false → P y) xs
      → All P (put log_path x xs)
  unfolding put
  All-put_apart P x [] a h k = (h, tt)
  All-put_apart P x (y ∷ ys) a h k = elim (Bool-cases (y.path == x.path)) [
    | inl t ↦ rw t (h, others t ys a.0 k.1)
    | inr f ↦ rw f (k.0 f, All-put_apart P x ys a.1 h k.1)
  ]
    where
      others :
          (y.path == x.path) ≡ true
          → (zs : List (Log Line)) → All (λ z. same_path y z ≡ false) zs
          → All (λ z. (z.path == x.path) ≡ false → P z) zs
          → All P zs
      others t [] b c = tt
      others t (z ∷ zs) b c =
          let differs : (z.path == x.path) ≡ false = ground (arith, b.0) in
          (c.0 differs, others t zs b.1 c.1)

module _ {Line : Type 0} (codec : Codec Line) (ok : IsCodec codec) where
  abbrev pub IsLogOf : ThreadStore Line → Log Line → Type 0
  IsLogOf store log =
      (s : Thread) × (get codec store s.id ≡ some s)
      × (lookup s.id store.files ≡ some log.path)
      × (read_log codec (some log) ≡ some (with_history s))

  pub record IsListed (store : ThreadStore Line) : Type 0 where
    pub apart : Apart same_path store.disk
    pub logs : All (IsLogOf store) store.disk

  IsLine-IsListed :
      {store next : ThreadStore Line} {s : Thread}
      → IsLine codec ok store next s
      → IsListed store
      → IsListed next
  unfolding get
  IsLine-IsListed {store} {next} {s} l v = record {
    apart =
        subst (Apart same_path) (sym l.disk)
          (Apart-put_any (grown codec ok l.path l.before s) store.disk v.apart);
    logs = subst (All (IsLogOf next)) (sym l.disk) (
        All-put_apart (IsLogOf next) (grown codec ok l.path l.before s) store.disk v.apart
          (
            s,
            session_at s.id ∙ ground arith,
            l.files s.id ∙ ground arith,
            read_log-last codec ok l.path l.before s l.accepted,
          )
          (All-imp (λ log k n. kept log k n) store.disk v.logs));
  }
    where
      session_at :
          (id : String)
          → find (λ t. t.id == id) next.sessions
            ≡ (if s.id == id then some s else find (λ t. t.id == id) store.sessions)
      session_at id =
          ap (λ (d : List Thread). find (λ t. t.id == id) d) l.sessions
          ∙ find-put session_id s store.sessions id

      kept : (log : Log Line) → IsLogOf store log → (log.path == l.path) ≡ false → IsLogOf next log
      kept log (t, g, f, r) n = elim (Bool-cases (s.id == t.id)) [
        | inl e ↦
            let same : l.path ≡ log.path =
              l.same_path log.path (ap (λ i. lookup i store.files) (ground arith) ∙ f) in
            absurd (ground (arith, same))
        | inr e ↦ (t, session_at t.id ∙ (rw e refl ∙ g), l.files t.id ∙ (rw e refl ∙ f), r)
      ]

  module _ (store : ThreadStore Line) (v : IsListed store) (gone : String) where
    abbrev left_disk : Option String → List (Log Line)
    left_disk o = elim o [ none ↦ store.disk | some path ↦ filter (λ l. l.path != path) store.disk ]

    abbrev left : ThreadStore Line
    left = record store {
      sessions = filter (λ s. s.id != gone) store.sessions;
      disk = left_disk (lookup gone store.files);
      files = without_key gone store.files;
      line_counts = filter (λ n. n.id != gone) store.line_counts;
    }

    keeps :
        (log : Log Line) (t : Thread)
        → (gone == t.id) ≡ false
        → get codec store t.id ≡ some t
        → lookup t.id store.files ≡ some log.path
        → read_log codec (some log) ≡ some (with_history t)
        → IsLogOf left log
    unfolding get
    keeps log t e g f r = (
      t,
      find-filter (λ (s : Thread). s.id) gone t.id store.sessions ∙ (rw e refl ∙ g),
      lookup-without_key gone t.id store.files ∙ (rw e refl ∙ f),
      r,
    )

    left-IsListed : IsListed left
    unfolding get
    left-IsListed = go (lookup gone store.files) refl
      where
        all_left :
            (path : String)
            → lookup gone store.files ≡ some path
            → (xs : List (Log Line)) → All (IsLogOf store) xs
            → All (IsLogOf left) (filter (λ l. l.path != path) xs)
        all_left path q [] h = tt
        all_left path q (log ∷ xs) h = elim (Bool-cases (log.path == path)) [
          | inl t ↦
              let dropped : (log.path != path) ≡ false = ground arith in
              rw dropped (all_left path q xs h.1)
          | inr n ↦
              let stays : (log.path != path) ≡ true = ground arith in
              rw stays (one path q log n h.0, all_left path q xs h.1)
        ]
          where
            one :
                (path : String)
                → lookup gone store.files ≡ some path
                → (log : Log Line) → (log.path == path) ≡ false
                → IsLogOf store log
                → IsLogOf left log
            one path q log n (t, g, f, r) = elim (Bool-cases (gone == t.id)) [
              | inl e ↦
                  let same : path ≡ log.path =
                    ground (arith, sym q ∙ (ap (λ i. lookup i store.files) (ground arith) ∙ f)) in
                  absurd (ground (arith, same))
              | inr e ↦ keeps log t e g f r
            ]

        go :
            (o : Option String)
            → lookup gone store.files ≡ o
            → IsListed (record left { disk = left_disk o })
        go none q = record {
          apart = v.apart;
          logs = All-imp (λ log k. none_kept q log k) store.disk v.logs;
        }
          where
            none_kept :
                lookup gone store.files ≡ none
                → (log : Log Line) → IsLogOf store log
                → IsLogOf left log
            none_kept q log (t, g, f, r) = elim (Bool-cases (gone == t.id)) [
              | inl e ↦ absurd (cc (sym q ∙ (ap (λ i. lookup i store.files) (ground arith) ∙ f)))
              | inr e ↦ keeps log t e g f r
            ]
        go (some path) q = record {
          apart = Apart-filter same_path (λ l. l.path != path) store.disk v.apart;
          logs = all_left path q store.disk v.logs;
        }

    delete-IsListed : IsListed (delete codec gone store).0
    unfolding delete
    delete-IsListed = go (any (λ s. s.id == gone) store.sessions)
      where
        go :
            (b : Bool)
            → (let r : ThreadStore Line × Bool = if b then (left, true) else (store, false) in
                IsListed r.0)
        go true = left-IsListed
        go false = v

  run_ops-IsListed_from :
      (store : ThreadStore Line)
      → ((id : String) → IsDurable codec ok store id)
      → IsListed store
      → (ops : List StoreOp) → All (IsAccepted codec ok) ops
      → IsListed (run_ops codec store ops)
  unfolding run_ops
  run_ops-IsListed_from store d v [] a = v
  run_ops-IsListed_from store d v (upserted s ∷ ops) a =
      run_ops-IsListed_from (upsert codec s store) (upsert-IsDurable codec ok store d s a.0)
        (IsLine-IsListed (upsert-IsLine codec ok store d s a.0) v) ops a.1
  run_ops-IsListed_from store d v (deleted gone ∷ ops) a =
      run_ops-IsListed_from (delete codec gone store).0 (delete-IsDurable codec ok store d gone)
        (delete-IsListed store v gone) ops a.1

  pub run_ops-IsListed :
      (ops : List StoreOp)
      → All (IsAccepted codec ok) ops
      → IsListed (run_ops codec empty_store ops)
  run_ops-IsListed ops a =
      run_ops-IsListed_from empty_store (empty-IsDurable codec ok)
        (record { apart = tt; logs = tt }) ops a
